-- ===== src/Security/Tls/Generate.antt =====
-- internal/security/tls_selfsigned.go: the certificates of the self-signed mode. crypto/x509 and
-- encoding/pem are parameters.
use rmm.Base.{
  ℕ, ◌+◌, ◌-◌, ◌*◌, List, [], ◌∷◌, ◌++◌, Bytes, codes, if◌then◌else◌, Bool, true, false, not, ◌||◌,
  Option, none, some,
}
use rmm.Go.Net.{Ip, Addr, ip_net, ip_addr, other_addr, Interface}
use rmm.Go.Os.{Write, write_file}
use rmm.Security.Token.{hour}

pub data KeyUsage : Type 0 where
  cert_sign crl_sign digital_signature key_encipherment : KeyUsage

-- x509.Certificate. Times are nanoseconds.
pub record Certificate : Type 0 where
  pub serial_number : ℕ
  pub organization : Bytes
  pub common_name : Bytes
  pub dns_names : List Bytes
  pub ip_addresses : List Bytes
  pub not_before : ℕ
  pub not_after : ℕ
  pub key_usage : List KeyUsage
  pub server_auth : Bool
  pub is_ca : Bool
  pub max_path_len : ℕ

pub record CertLibrary : Type 0 where
  pub public : Bytes → Bytes
  -- CreateCertificate on random bytes, a template, a parent, a public key and the key of the signer.
  pub create_certificate : Bytes → Certificate → Certificate → Bytes → Bytes → Option Bytes
  pub parse_certificate : Bytes → Option Certificate
  pub marshal_key : Bytes → Option Bytes
  -- A block of a type.
  pub pem_encode : Bytes → Bytes → Bytes
  -- LoadX509KeyPair on the contents of the two files.
  pub load_key_pair : Bytes → Bytes → Option Bytes

-- The files under the certs directory; none is missing.
pub record TlsFiles : Type 0 where
  -- Whether the file can be read if it is there.
  pub ca_readable : Bool
  pub cert_readable : Bool
  pub key_readable : Bool
  pub ca_cert : Option Bytes
  pub cert : Option Bytes
  pub key : Option Bytes

-- What the world gives to one generation: keys are none where GenerateKey fails.
pub record Generation : Type 0 where
  pub ca_key : Option Bytes
  pub server_key : Option Bytes
  pub ca_random : Bytes
  pub server_random : Bytes
  pub ca_serial : ℕ
  pub server_serial : ℕ
  pub ca_now : ℕ
  pub server_now : ℕ
  pub hostname : Option Bytes
  pub interfaces : Option (List Interface)
  pub ca_write : Write
  pub cert_write : Write
  pub key_write : Write

abbrev day : ℕ
day = 24 * hour

unfoldable pub ca_template : Generation → Certificate
unfolding day
ca_template g = record {
  serial_number = g.ca_serial;
  organization = codes "Platform CA";
  common_name = codes "Platform Root CA";
  dns_names = [];
  ip_addresses = [];
  not_before = g.ca_now - hour;
  not_after = g.ca_now + 10 * 365 * day;
  key_usage = cert_sign ∷ crl_sign ∷ [];
  server_auth = false;
  is_ca = true;
  max_path_len = 1;
}

abbrev unless_loopback : Ip → List Bytes
unless_loopback ip = if ip.loopback then [] else ip.text ∷ []

unfoldable pub san_ips : List Addr → List Bytes
unfolding unless_loopback
san_ips [] = []
san_ips (ip_net ip ∷ addrs) = unless_loopback ip ++ san_ips addrs
san_ips (ip_addr ip ∷ addrs) = unless_loopback ip ++ san_ips addrs
san_ips (other_addr ∷ addrs) = san_ips addrs

unfoldable pub interface_san_ips : List Interface → List Bytes
interface_san_ips [] = []
interface_san_ips (iface ∷ ifaces) =
    if not iface.is_up || iface.is_loopback then interface_san_ips ifaces else elim iface.addrs [
      | none ↦ interface_san_ips ifaces
      | some addrs ↦ san_ips addrs ++ interface_san_ips ifaces
    ]

unfoldable pub collect_sans : Generation → List Bytes × List Bytes
collect_sans g =
    let dns_names = codes "localhost" ∷ elim g.hostname [ none ↦ [] | some h ↦ h ∷ [] ] in
    let ip_addrs =
      codes "127.0.0.1"
      ∷ codes "::1"
      ∷ elim g.interfaces [ none ↦ [] | some ifaces ↦ interface_san_ips ifaces ] in
    (dns_names, ip_addrs)

unfoldable pub server_template : Generation → Certificate
unfolding day
server_template g = record {
  serial_number = g.server_serial;
  organization = codes "Platform";
  common_name = codes "Platform Server";
  dns_names = (collect_sans g).0;
  ip_addresses = (collect_sans g).1;
  not_before = g.server_now - hour;
  not_after = g.server_now + 2 * 365 * day;
  key_usage = digital_signature ∷ key_encipherment ∷ [];
  server_auth = true;
  is_ca = false;
  max_path_len = 0;
}

unfoldable pub write_pem : CertLibrary → Write → Bytes → Bytes → Option Bytes → Bool × Option Bytes
write_pem lib write kind der file = write_file write (lib.pem_encode kind der) file

-- What is to be written.
pub record Made : Type 0 where
  pub ca_der : Bytes
  pub server_der : Bytes
  pub server_key : Bytes

-- From the key of the server on.
unfoldable pub make_server : CertLibrary → Generation → Bytes → Bytes → Certificate → Option Made
make_server lib g ca_key ca_der ca_cert = elim g.server_key [
  | none ↦ none
  | some server_key ↦
      elim (lib.create_certificate g.server_random (server_template g) ca_cert
        (lib.public server_key) ca_key) [
          | none ↦ none
          | some server_der ↦
              some (record { ca_der = ca_der; server_der = server_der; server_key = server_key })
        ]
]

-- `generateCerts` up to the first write.
unfoldable pub make_certs : CertLibrary → Generation → Option Made
make_certs lib g = elim g.ca_key [
  | none ↦ none
  | some ca_key ↦
      elim (lib.create_certificate g.ca_random (ca_template g) (ca_template g) (lib.public ca_key)
        ca_key) [
          | none ↦ none
          | some ca_der ↦ elim (lib.parse_certificate ca_der) [
            | none ↦ none
            | some ca_cert ↦ make_server lib g ca_key ca_der ca_cert
          ]
        ]
]

unfoldable pub write_server_key : CertLibrary → Generation → Made → TlsFiles → Bool × TlsFiles
write_server_key lib g made files = elim (lib.marshal_key made.server_key) [
  | none ↦ (false, files)
  | some key_bytes ↦
      let (done, key) = write_pem lib g.key_write (codes "EC PRIVATE KEY") key_bytes files.key in
      (done, record files { key = key })
]

unfoldable pub write_certs : CertLibrary → Generation → Made → TlsFiles → Bool × TlsFiles
write_certs lib g made files =
    let (ca_done, ca_cert) =
      write_pem lib g.ca_write (codes "CERTIFICATE") made.ca_der files.ca_cert in
    let files₁ = record files { ca_cert = ca_cert } in
    if not ca_done
    then (false, files₁)
    else (let (done, cert) =
          write_pem lib g.cert_write (codes "CERTIFICATE") made.server_der files.cert in
        let files₂ = record files₁ { cert = cert } in
        if not done then (false, files₂) else write_server_key lib g made files₂)

-- `false` is an error.
unfoldable pub generate_certs : CertLibrary → Generation → TlsFiles → Bool × TlsFiles
generate_certs lib g files = elim (make_certs lib g) [
  | none ↦ (false, files)
  | some made ↦ write_certs lib g made files
]
