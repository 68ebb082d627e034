-- ===== src/Security/Tls/Restart.antt =====
-- internal/security/tls.go: what a later start finds.
use rmm.Base.{Bytes, codes, ◌≡◌, ap, Bool, true, false, not, ◌||◌, none, some, arith}
use rmm.Go.Os.{succeeds, fails_to_open, write_file, read_file}
use rmm.Security.Tls.Generate.{
  CertLibrary, Generation, TlsFiles, Made, make_certs, write_pem, write_certs, generate_certs,
}
use rmm.Security.Tls.{
  TlsConfig, loaded, generate_error, file_exists, load_files, read_ca_cert, load_or_generate_tls,
  tls13,
}

abbrev is_missing : TlsFiles → Bool
is_missing files =
    not (file_exists files.ca_cert) || (not (file_exists files.cert) || not (file_exists files.key))

-- What is loaded is in the files, and there are all three.
load_files-is_missing :
    (lib : CertLibrary) (files : TlsFiles) (config : TlsConfig)
    → load_files lib files ≡ loaded config
    → is_missing files ≡ false
unfolding load_files read_ca_cert file_exists read_file
load_files-is_missing lib files config e = ground (arith, e)

load_or_generate_loads :
    (lib : CertLibrary) (g : Generation) (files files' : TlsFiles) (config : TlsConfig)
    → load_or_generate_tls lib g files ≡ (loaded config, files')
    → load_files lib files' ≡ loaded config
unfolding load_or_generate_tls
load_or_generate_loads lib g files files' config e = ground (arith, e)

-- A configuration that was loaded is the one that every later start loads, whatever it could generate,
-- and no file is written again.
pub load_or_generate_again :
    (lib : CertLibrary) (g later : Generation) (files files' : TlsFiles) (config : TlsConfig)
    → load_or_generate_tls lib g files ≡ (loaded config, files')
    → load_or_generate_tls lib later files' ≡ (loaded config, files')
unfolding load_or_generate_tls
load_or_generate_again lib g later files files' config e =
    let now = load_or_generate_loads lib g files files' config e in
    rw (load_files-is_missing lib files' config now) (ap (λ r. (r, files')) now)

-- The start that replaces the CA and then cannot open the certificate file: it fails, and the next
-- start serves the old certificate beside the new CA.
pub interrupted_generation :
    (lib : CertLibrary) (g later : Generation) (cert key pair : Bytes) (made : Made)
    → lib.load_key_pair cert key ≡ some pair
    → make_certs lib g ≡ some made
    → g.ca_write ≡ succeeds
    → g.cert_write ≡ fails_to_open
    → (files' : TlsFiles) × (load_or_generate_tls lib g (record {
      ca_readable = true;
      cert_readable = true;
      key_readable = true;
      ca_cert = none;
      cert = some cert;
      key = some key;
    })
        ≡ (generate_error, files'))
      × (load_or_generate_tls lib later files' ≡ (
        loaded (record {
          certificate = some pair;
          client_cas = some (lib.pem_encode (codes "CERTIFICATE") made.ca_der);
          min_version = tls13;
        }),
        files',
      ))
unfolding load_or_generate_tls generate_certs write_certs write_pem write_file load_files
    read_ca_cert file_exists read_file
interrupted_generation lib g later cert key pair made p m c o = (
  record {
    ca_readable = true;
    cert_readable = true;
    key_readable = true;
    ca_cert = some (lib.pem_encode (codes "CERTIFICATE") made.ca_der);
    cert = some cert;
    key = some key;
  },
  ground (arith, p, m, c, o),
  ground (arith, p),
)
