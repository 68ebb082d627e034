-- ===== src/Security/Tls.antt =====
-- internal/security/tls.go and tls_acme.go: the modes of TLS and their set-up.
pub mod Generate
pub mod Restart
use rmm.Base.{
  ℕ, List, [], ◌∷◌, Bytes, codes, if◌then◌else◌, Bool, true, false, not, ◌||◌, Option, none, some,
}
use rmm.Go.Os.{read_file}
use rmm.Go.Filepath.{join}
use rmm.Security.Tls.Generate.{CertLibrary, Generation, TlsFiles, generate_certs}

pub data TlsMode : Type 0 where
  tls_mode_off tls_mode_self_signed tls_mode_acme tls_mode_custom : TlsMode

-- The paths under a directory.
pub record TlsPaths : Type 0 where
  pub ca_cert_path : Bytes
  pub cert_path : Bytes
  pub key_path : Bytes

-- tls.Config. A certificate is what LoadX509KeyPair returned; the pool is the text it was made of.
pub record TlsConfig : Type 0 where
  -- None where autocert obtains it on demand.
  pub certificate : Option Bytes
  pub client_cas : Option Bytes
  pub min_version : ℕ

-- VersionTLS13.
abbrev pub tls13 : ℕ
tls13 = 772

-- The third part, the paths, is that of the directory.
pub data TlsLoad : Type 0 where
  loaded : TlsConfig → TlsLoad
  generate_error : TlsLoad
  key_pair_error : TlsLoad
  ca_error : TlsLoad

unfoldable pub file_exists : Option Bytes → Bool
file_exists none = false
file_exists (some content) = true

unfoldable pub read_ca_cert : TlsFiles → Option Bytes
read_ca_cert files = read_file files.ca_readable files.ca_cert

-- LoadX509KeyPair and ReadFile fail on a file that is missing as on one that cannot be read.
unfoldable pub load_files : CertLibrary → TlsFiles → TlsLoad
load_files lib files = elim (read_file files.cert_readable files.cert) [
  | none ↦ key_pair_error
  | some cert ↦ elim (read_file files.key_readable files.key) [
    | none ↦ key_pair_error
    | some key ↦ elim (lib.load_key_pair cert key) [
      | none ↦ key_pair_error
      | some pair ↦ elim (read_ca_cert files) [
        | none ↦ ca_error
        | some ca ↦
            loaded (record { certificate = some pair; client_cas = some ca; min_version = tls13 })
      ]
    ]
  ]
]

unfoldable pub load_or_generate_tls : CertLibrary → Generation → TlsFiles → TlsLoad × TlsFiles
load_or_generate_tls lib g files =
    if not (file_exists files.ca_cert)
      || (not (file_exists files.cert) || not (file_exists files.key))
    then (let (done, files') = generate_certs lib g files in
        if done then (load_files lib files', files') else (generate_error, files'))
    else (load_files lib files, files)

-- On the contents of the two files; none is an error.
unfoldable pub load_custom_tls : CertLibrary → Option Bytes → Option Bytes → Option TlsConfig
load_custom_tls lib none key = none
load_custom_tls lib (some cert) none = none
load_custom_tls lib (some cert) (some key) = elim (lib.load_key_pair cert key) [
  | none ↦ none
  | some pair ↦ some (record { certificate = some pair; client_cas = none; min_version = tls13 })
]

-- autocert.Manager.
pub record AcmeManager : Type 0 where
  pub cache_dir : Bytes
  pub domains : List Bytes
  pub min_version : ℕ

unfoldable pub new_acme_manager : Bytes → List Bytes → AcmeManager
new_acme_manager certs_dir domains = record {
  cache_dir = join (certs_dir ∷ codes "acme" ∷ []);
  domains = domains;
  min_version = tls13;
}

unfoldable pub tls_paths : Bytes → TlsPaths
tls_paths certs_dir = record {
  ca_cert_path = join (certs_dir ∷ codes "ca.crt" ∷ []);
  cert_path = join (certs_dir ∷ codes "server.crt" ∷ []);
  key_path = join (certs_dir ∷ codes "server.key" ∷ []);
}
