-- ===== src/Server/Start.antt =====
-- cmd/server/main.go: main up to the listener, and findWebDir. The file system, net/http and the opening
-- of the database are arguments; logs are left out.
pub mod Modes
use rmm.Base.{
  ℕ, ◌≡◌, refl, List, [], ◌∷◌, ◌++◌, Bytes, codes, text_eq, if◌then◌else◌, Bool, true, false, not,
  ◌&&◌, ◌||◌, Option, none, some,
}
use rmm.Go.Filepath.{join}
use rmm.Store.{Store, Call}
use rmm.Security.Hmac.{Hash}
use rmm.Security.Platform.{Platform}
use rmm.Security.Platform.KeyFile.{KeyLibrary, Disk, load_or_create_platform}
use rmm.Security.Platform.KeyFile
use rmm.Security.Token.{Random}
use rmm.Security.Tls.Generate.{CertLibrary, Generation, TlsFiles}
use rmm.Security.Tls.{
  TlsMode, tls_mode_off, tls_mode_self_signed, tls_mode_acme, tls_mode_custom, TlsConfig, TlsPaths,
  TlsLoad, loaded, generate_error, key_pair_error, ca_error, AcmeManager, load_or_generate_tls,
  load_custom_tls, new_acme_manager, tls_paths, read_ca_cert,
}
use rmm.Server.State.{Server, new_server}
use rmm.Server.Admin.{AdminStart, stopped, kept, created, ensure_admin_key}

-- The command line.
pub record Flags : Type 0 where
  pub addr : Bytes
  pub web_dir : Bytes
  pub data_dir : Bytes
  pub certs_dir : Bytes
  pub insecure : Bool
  pub acme_domain : Bytes
  pub cert_file : Bytes
  pub key_file : Bytes

-- `config` is none for nil.
pub record TlsResult : Type 0 where
  pub config : Option TlsConfig
  pub paths : Option TlsPaths
  pub acme_manager : Option AcmeManager
  pub mode : TlsMode

-- The cases of the switch.
unfoldable pub mode_of : Flags → TlsMode
mode_of flags =
    if flags.insecure
    then tls_mode_off
    else if not (text_eq flags.acme_domain [])
    then tls_mode_acme
    else if not (text_eq flags.cert_file []) && not (text_eq flags.key_file [])
    then tls_mode_custom
    else tls_mode_self_signed

-- The default address stands for the default of the mode.
unfoldable pub listen_addr : TlsMode → Bytes → Bytes
listen_addr tls_mode_off addr = if text_eq addr (codes ":8443") then codes ":8080" else addr
listen_addr tls_mode_acme addr = if text_eq addr (codes ":8443") then codes ":443" else addr
listen_addr _ addr = addr

-- The contents of the two files of the custom mode, the files under the certs directory, and what a
-- generation would give.
pub record TlsWorld : Type 0 where
  pub custom_cert : Option Bytes
  pub custom_key : Option Bytes
  pub files : TlsFiles
  pub generation : Generation

unfoldable pub self_signed : TlsLoad → Bytes → Option TlsResult
self_signed (loaded config) certs_dir = some (record {
  config = some config;
  paths = some (tls_paths certs_dir);
  acme_manager = none;
  mode = tls_mode_self_signed;
})
self_signed _ certs_dir = none

-- `none` is log.Fatalf.
unfoldable pub setup_tls : CertLibrary → TlsWorld → Flags → TlsMode → Option TlsResult × TlsFiles
setup_tls lib world flags tls_mode_off = (
  some (record { config = none; paths = none; acme_manager = none; mode = tls_mode_off }),
  world.files,
)
setup_tls lib world flags tls_mode_acme =
    let manager = new_acme_manager flags.certs_dir (flags.acme_domain ∷ []) in
    (
      some (record {
        config =
            some
              (record { certificate = none; client_cas = none; min_version = manager.min_version });
        paths = none;
        acme_manager = some manager;
        mode = tls_mode_acme;
      }),
      world.files,
    )
setup_tls lib world flags tls_mode_custom = (
  elim (load_custom_tls lib world.custom_cert world.custom_key) [
    | none ↦ none
    | some config ↦
        some (record {
          config = some config;
          paths = none;
          acme_manager = none;
          mode = tls_mode_custom;
        })
  ],
  world.files,
)
setup_tls lib world flags tls_mode_self_signed =
    let (load, files) = load_or_generate_tls lib world.generation world.files in
    (self_signed load flags.certs_dir, files)

-- What main listens with: each listener has its address.
pub data Listener : Type 0 where
  plain : Bytes → Listener
  -- The handler of the HTTP-01 challenges, without TLS; its failure ends nothing.
  challenges : Bytes → AcmeManager → Listener
  over_tls : Bytes → Option TlsConfig → Listener

-- In the order in which they are started.
unfoldable pub listen : Bytes → TlsResult → Option (List Listener)
listen addr result = elim result.mode [
  | tls_mode_off ↦ some (plain addr ∷ [])
  | tls_mode_acme ↦ elim result.acme_manager [
    | none ↦ none
    | some manager ↦ some (challenges (codes ":80") manager ∷ over_tls addr result.config ∷ [])
  ]
  | _ ↦ some (over_tls addr result.config ∷ [])
]

-- os and path/filepath: Dir and Abs, whether a path is a directory, and whether it exists.
pub record FileSystem : Type 0 where
  pub dir : Bytes → Bytes
  pub abs : Bytes → Option Bytes
  pub is_dir : Bytes → Bool
  pub exists : Bytes → Bool

unfoldable pub web_candidates : FileSystem → Bytes → Option Bytes → List Bytes
web_candidates fs arg0 executable =
    codes "web" ∷ codes "../web" ∷ join (arg0 ∷ codes ".." ∷ codes "web" ∷ []) ∷ elim executable [
      | none ↦ []
      | some exe ↦
          join (fs.dir exe ∷ codes "web" ∷ [])
          ∷ join (fs.dir exe ∷ codes ".." ∷ codes "web" ∷ [])
          ∷ []
    ]

-- The empty text where no candidate has an index.html.
unfoldable pub first_web_dir : FileSystem → List Bytes → Bytes
first_web_dir fs [] = []
first_web_dir fs (dir ∷ rest) = elim (fs.abs dir) [
  | none ↦ first_web_dir fs rest
  | some abs ↦
      if fs.is_dir abs && fs.exists (join (abs ∷ codes "index.html" ∷ []))
      then abs
      else first_web_dir fs rest
]

unfoldable pub find_web_dir : FileSystem → Bytes → Option Bytes → Bytes
find_web_dir fs arg0 executable = first_web_dir fs (web_candidates fs arg0 executable)

-- The rest of what the world gives to a start; `database` is none where it cannot be opened.
pub record World (S : Type 0) : Type 0 where
  pub data_dir_made : Bool
  pub certs_dir_made : Bool
  pub disk : Disk
  pub tls : TlsWorld
  pub database : Option S
  pub list_call : Call
  pub create_call : Call
  pub random : Random
  pub id_bytes : Bytes
  pub now : ℕ
  pub file_system : FileSystem
  pub arg0 : Bytes
  pub executable : Option Bytes

-- `fatal` is log.Fatal. `running` has the key that was shown, the web directory as it was resolved, the
-- server and the listeners.
pub data Start (S : Type 0) : Type 0 where
  fatal : Start S
  running : AdminStart → Bytes → Server S → List Listener → Start S

module _ {S : Type 0} (store : Store S) (sha256 : Hash) (keys : KeyLibrary) (lib : CertLibrary)
    (flags : Flags) (world : World S) where
  unfoldable pub web_dir_of : Bytes
  web_dir_of =
      if text_eq flags.web_dir []
      then find_web_dir world.file_system world.arg0 world.executable
      else flags.web_dir

  -- From the web directory on.
  unfoldable pub serve_web : Platform → TlsResult → TlsFiles → AdminStart → S → Start S
  serve_web platform result files admin db =
      if text_eq web_dir_of []
      then fatal
      else elim (listen (listen_addr result.mode flags.addr) result) [
        | none ↦ fatal
        | some listeners ↦
            let ca : Option Bytes = elim result.paths [
              | none ↦ none
              | some _ ↦ read_ca_cert files
            ] in
            running admin web_dir_of (new_server db platform ca) listeners
      ]

  -- From the database on.
  unfoldable pub open_store : Platform → TlsResult → TlsFiles → Start S
  open_store platform result files = elim world.database [
    | none ↦ fatal
    | some db ↦
        let (admin, db') =
          ensure_admin_key store sha256 world.list_call world.create_call world.random
            world.id_bytes world.now db in
        elim admin [ stopped ↦ fatal | other ↦ serve_web platform result files other db' ]
  ]

  -- From the platform's key on.
  unfoldable pub with_platform : KeyFile.KeyResult → Start S
  with_platform (KeyFile.err e) = fatal
  with_platform (KeyFile.ok platform) =
      let (result, files) = setup_tls lib world.tls flags (mode_of flags) in
      elim result [ none ↦ fatal | some r ↦ open_store platform r files ]

  unfoldable pub start : Start S
  start =
      if not world.data_dir_made || (not flags.insecure && not world.certs_dir_made)
      then fatal
      else with_platform (load_or_create_platform keys world.disk).0
