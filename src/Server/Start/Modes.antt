-- ===== src/Server/Start/Modes.antt =====
-- cmd/server/main.go: what a start listens with.
use rmm.Base.{
  ◌≡◌, ◌≢◌, refl, List, [], ◌∷◌, Bytes, codes, text_eq, text_eq_iff, All, false, true, not, ◌&&◌,
  ◌||◌, Option, none, some, arith, option_rule, if_rule,
}
use mathlib.Core.Path.{subst}
use rmm.Store.{Store}
use rmm.Security.Hmac.{Hash}
use rmm.Security.Platform.{Platform}
use rmm.Security.Platform.KeyFile.{KeyLibrary, load_or_create_platform}
use rmm.Security.Platform.KeyFile
use rmm.Security.Tls.Generate.{CertLibrary, Generation, TlsFiles, generate_certs}
use rmm.Security.Tls.{
  TlsMode, tls_mode_off, tls_mode_self_signed, tls_mode_acme, tls_mode_custom, TlsConfig, loaded,
  load_files, load_custom_tls, load_or_generate_tls, TlsLoad, generate_error, key_pair_error,
  ca_error, AcmeManager, tls13, new_acme_manager,
}
use rmm.Server.State.{Server}
use rmm.Server.Admin.{AdminStart, stopped, kept, created, ensure_admin_key}
use rmm.Server.Start.{
  Flags, TlsResult, mode_of, listen_addr, TlsWorld, self_signed, setup_tls, Listener, plain,
  challenges, over_tls, listen, World, Start, fatal, running, web_dir_of, serve_web, open_store,
  with_platform, start,
}

abbrev pub IsTls13 : Option TlsConfig → Type 0
IsTls13 none = ⊥
IsTls13 (some c) = c.min_version ≡ tls13

-- A property of a result, if there is one.
abbrev Holds {ℓ} : {A : Type ℓ} → (A → Type 0) → Option A → Type 0
Holds P none = Unit
Holds P (some a) = P a

-- The flags of the mode of ACME.
abbrev pub IsAcme : Flags → Type 0
IsAcme flags = (flags.insecure ≡ false) × (flags.acme_domain ≢ [])

-- Whether a listener is one that the flags ask for: all handlers without TLS only with -insecure, the
-- challenges of ACME only with -acme, for its domain and on :80, and TLS only with a configuration of
-- version 1.3.
abbrev pub IsAsked : Flags → Listener → Type 0
IsAsked flags (plain addr) = flags.insecure ≡ true
IsAsked flags (challenges addr manager) =
    IsAcme flags × (addr ≡ codes ":80") × (manager.domains ≡ flags.acme_domain ∷ [])
IsAsked flags (over_tls addr config) = IsTls13 config

abbrev IsSetUp : Flags → TlsMode → Option TlsConfig → Option AcmeManager → Type 0
IsSetUp flags tls_mode_off config manager = flags.insecure ≡ true
IsSetUp flags tls_mode_acme config manager =
    IsTls13 config × IsAcme flags × Holds (λ m. m.domains ≡ flags.acme_domain ∷ []) manager
IsSetUp flags _ config manager = IsTls13 config

abbrev ResultIsSetUp : Flags → TlsResult → Type 0
ResultIsSetUp flags r = IsSetUp flags r.mode r.config r.acme_manager

mode_of-IsAcme : (flags : Flags) → mode_of flags ≡ tls_mode_acme → IsAcme flags
unfolding mode_of
mode_of-IsAcme flags e = (
  ground (arith, e),
  λ none_given. ground (arith, e, (text_eq_iff flags.acme_domain []).1 none_given),
)

mode_of-insecure : (flags : Flags) → mode_of flags ≡ tls_mode_off → flags.insecure ≡ true
unfolding mode_of
mode_of-insecure flags e = ground (arith, e)

load_custom_tls-Holds :
    (lib : CertLibrary) (cert key : Option Bytes)
    → Holds (λ c. c.min_version ≡ tls13) (load_custom_tls lib cert key)
unfolding load_custom_tls
load_custom_tls-Holds lib none key = tt
load_custom_tls-Holds lib (some cert) none = tt
load_custom_tls-Holds lib (some cert) (some key) =
    option_rule (Holds (λ (c : TlsConfig). c.min_version ≡ tls13)) (lib.load_key_pair cert key) none
      (λ pair. some (record { certificate = some pair; client_cas = none; min_version = tls13 })) tt
      (λ pair. refl)

load_files-tls13 :
    (lib : CertLibrary) (files : TlsFiles) (c : TlsConfig)
    → load_files lib files ≡ loaded c
    → c.min_version ≡ tls13
unfolding load_files
load_files-tls13 lib files c e = ground (arith, e)

load_or_generate_tls13 :
    (lib : CertLibrary) (g : Generation) (files : TlsFiles) (c : TlsConfig)
    → (load_or_generate_tls lib g files).0 ≡ loaded c
    → c.min_version ≡ tls13
unfolding load_or_generate_tls
load_or_generate_tls13 lib g files c e =
    ground (
      arith,
      e,
      load_files-tls13 lib files c,
      load_files-tls13 lib (generate_certs lib g files).1 c,
    )

self_signed-Holds :
    (flags : Flags) (load : TlsLoad)
    → ((c : TlsConfig) → load ≡ loaded c → c.min_version ≡ tls13)
    → Holds (ResultIsSetUp flags) (self_signed load flags.certs_dir)
unfolding self_signed
self_signed-Holds flags (loaded c) h = h c refl
self_signed-Holds flags generate_error h = tt
self_signed-Holds flags key_pair_error h = tt
self_signed-Holds flags ca_error h = tt

custom-Holds :
    (flags : Flags) (o : Option TlsConfig)
    → Holds (λ c. c.min_version ≡ tls13) o
    → Holds (ResultIsSetUp flags) (elim o [
      | none ↦ none
      | some config ↦ some (record {
        config = some config;
        paths = none;
        acme_manager = none;
        mode = tls_mode_custom;
      })
    ])
custom-Holds flags none h = tt
custom-Holds flags (some c) h = h

setup_tls-Holds :
    (lib : CertLibrary) (world : TlsWorld) (flags : Flags) (mode : TlsMode)
    → (mode ≡ tls_mode_off → flags.insecure ≡ true)
    → (mode ≡ tls_mode_acme → IsAcme flags)
    → Holds (ResultIsSetUp flags) (setup_tls lib world flags mode).0
unfolding setup_tls new_acme_manager
setup_tls-Holds lib world flags tls_mode_off h acme = h refl
setup_tls-Holds lib world flags tls_mode_acme h acme = (refl, acme refl, refl)
setup_tls-Holds lib world flags tls_mode_custom h acme =
    custom-Holds flags _ (load_custom_tls-Holds lib world.custom_cert world.custom_key)
setup_tls-Holds lib world flags tls_mode_self_signed h acme =
    self_signed-Holds flags _ (load_or_generate_tls13 lib world.generation world.files)

listen-Holds :
    (flags : Flags) (addr : Bytes) (r : TlsResult)
    → ResultIsSetUp flags r
    → Holds (All (IsAsked flags)) (listen addr r)
unfolding listen
listen-Holds flags addr r h = of_mode r.mode h
  where
    of_manager :
        (manager : Option AcmeManager)
        → IsTls13 r.config
        → IsAcme flags
        → Holds (λ m. m.domains ≡ flags.acme_domain ∷ []) manager
        → Holds (All (IsAsked flags)) (elim manager [
          | none ↦ none
          | some m ↦ some (challenges (codes ":80") m ∷ over_tls addr r.config ∷ [])
        ])
    of_manager none k acme d = tt
    of_manager (some m) k acme d = ((acme, refl, d), (k, tt))

    of_mode :
        (mode : TlsMode)
        → IsSetUp flags mode r.config r.acme_manager
        → Holds (All (IsAsked flags)) (elim mode [
          | tls_mode_off ↦ some (plain addr ∷ [])
          | tls_mode_acme ↦ elim r.acme_manager [
            | none ↦ none
            | some manager ↦ some (challenges (codes ":80") manager ∷ over_tls addr r.config ∷ [])
          ]
          | _ ↦ some (over_tls addr r.config ∷ [])
        ])
    of_mode tls_mode_off k = (k, tt)
    of_mode tls_mode_acme (k, acme, d) = of_manager r.acme_manager k acme d
    of_mode tls_mode_custom k = (k, tt)
    of_mode tls_mode_self_signed k = (k, tt)

module _ {S : Type 0} (store : Store S) (sha256 : Hash) (keys : KeyLibrary) (lib : CertLibrary)
    (flags : Flags) (world : World S) where
  abbrev Runs : Start S → Type 0
  Runs fatal = Unit
  Runs (running admin web_dir s listeners) = All (IsAsked flags) listeners

  from_listener :
      (admin : AdminStart) (web_dir : Bytes) (s : Server S) (l : Option (List Listener))
      → Holds (All (IsAsked flags)) l
      → Runs (elim l [ none ↦ fatal | some x ↦ running admin web_dir s x ])
  from_listener admin web_dir s none h = tt
  from_listener admin web_dir s (some x) h = h

  serve_web-Runs :
      (platform : Platform) (r : TlsResult) (files : TlsFiles) (admin : AdminStart) (db : S)
      → ResultIsSetUp flags r
      → Runs (serve_web store sha256 keys lib flags world platform r files admin db)
  unfolding serve_web
  serve_web-Runs platform r files admin db h =
      if_rule Runs (text_eq (web_dir_of store sha256 keys lib flags world) []) fatal _ (λ _. tt)
        (λ _.
          from_listener admin _ _ (listen (listen_addr r.mode flags.addr) r)
            (listen-Holds flags (listen_addr r.mode flags.addr) r h))

  open_store-Runs :
      (platform : Platform) (r : TlsResult) (files : TlsFiles)
      → ResultIsSetUp flags r
      → Runs (open_store store sha256 keys lib flags world platform r files)
  unfolding open_store
  open_store-Runs platform r files h = from_database world.database
    where
      from_admin :
          (admin : AdminStart) (db : S)
          → Runs (elim admin [
            | stopped ↦ fatal
            | other ↦ serve_web store sha256 keys lib flags world platform r files other db
          ])
      from_admin stopped db = tt
      from_admin kept db = serve_web-Runs platform r files kept db h
      from_admin (created key) db = serve_web-Runs platform r files (created key) db h

      from_database :
          (database : Option S)
          → Runs (elim database [
            | none ↦ fatal
            | some db ↦
                let (admin, db') =
                  ensure_admin_key store sha256 world.list_call world.create_call world.random
                    world.id_bytes world.now db in
                elim admin [
                  | stopped ↦ fatal
                  | other ↦ serve_web store sha256 keys lib flags world platform r files other db'
                ]
          ])
      from_database none = tt
      from_database (some db) = from_admin _ _

  with_platform-Runs :
      (p : KeyFile.KeyResult) → Runs (with_platform store sha256 keys lib flags world p)
  unfolding with_platform
  with_platform-Runs (KeyFile.err e) = tt
  with_platform-Runs (KeyFile.ok platform) =
      from_tls (setup_tls lib world.tls flags (mode_of flags)).0 (
        setup_tls-Holds lib world.tls flags (mode_of flags) (mode_of-insecure flags)
          (mode_of-IsAcme flags))
    where
      from_tls :
          (result : Option TlsResult)
          → Holds (ResultIsSetUp flags) result
          → Runs (elim result [
            | none ↦ fatal
            | some r ↦
                open_store store sha256 keys lib flags world platform r
                  (setup_tls lib world.tls flags (mode_of flags)).1
          ])
      from_tls none h = tt
      from_tls (some r) h = open_store-Runs platform r _ h

  -- A server that starts serves its handlers without TLS only if it was told to by -insecure, and
  -- otherwise with a configuration that wants TLS 1.3, whatever the flags, the files and the database
  -- are. Besides these it listens without TLS for the challenges of ACME alone: with -acme, for the
  -- domain given and on :80.
  pub start-IsAsked :
      (admin : AdminStart) (web_dir : Bytes) (s : Server S) (listeners : List Listener)
      → start store sha256 keys lib flags world ≡ running admin web_dir s listeners
      → All (IsAsked flags) listeners
  unfolding start
  start-IsAsked admin web_dir s listeners e = subst Runs e (
      if_rule Runs (not world.data_dir_made || (not flags.insecure && not world.certs_dir_made))
        fatal _ (λ _. tt) (λ _. with_platform-Runs (load_or_create_platform keys world.disk).0))
