-- ===== src/Security/Platform/KeyFile.antt =====
-- LoadOrCreatePlatform, loadPlatformKey, generatePlatformKey and newPlatform of
-- internal/security/platform.go. Ed25519, HKDF and PEM are parameters; the disk holds one file.
use rmm.Base.{
  ℕ, ◌≡◌, Bytes, codes, ◌==◌, text_eq, text_eq_refl, if◌then◌else◌, length, take, Bool, true, false,
  not, Option, none, some, arith, Option-cases, inl, inr,
}
use rmm.Security.Platform.{Platform}

pub record PemBlock : Type 0 where
  pub kind : Bytes
  pub body : Bytes

-- What the standard library and x/crypto compute.
pub record KeyLibrary : Type 0 where
  -- The private key that `ed25519.GenerateKey` makes of random bytes.
  pub generate_key : Bytes → Bytes
  pub seed : Bytes → Bytes
  pub public : Bytes → Bytes
  pub key_from_seed : Bytes → Bytes
  -- HKDF of a secret, a salt and an info, as many bytes as are asked for.
  pub hkdf : Bytes → Bytes → Bytes → ℕ → Bytes
  pub pem_encode : PemBlock → Bytes
  pub pem_decode : Bytes → Option PemBlock

-- Their documented behaviour.
pub record KeyLibraryLaws (keys : KeyLibrary) : Type 0 where
  pub length-seed : (random : Bytes) → length (keys.seed (keys.generate_key random)) ≡ 32
  pub key_from_seed-seed :
      (random : Bytes)
      → keys.key_from_seed (keys.seed (keys.generate_key random)) ≡ keys.generate_key random
  pub pem_decode-pem_encode : (b : PemBlock) → keys.pem_decode (keys.pem_encode b) ≡ some b

pub data KeyError : Type 0 where
  os_error invalid_file invalid_size : KeyError

pub data KeyResult : Type 0 where
  ok : Platform → KeyResult
  err : KeyError → KeyResult

-- How the operating system answers: reads and opens may fail, and so may a write, after some bytes.
pub record Disk : Type 0 where
  pub file : Option Bytes
  pub can_read : Bool
  pub can_open : Bool
  pub can_write : Bool
  pub written : ℕ
  pub random : Option Bytes

abbrev pub seed_size : ℕ
seed_size = 32

unfoldable pub new_platform : KeyLibrary → Bytes → Platform
new_platform keys priv = record {
  public_key = keys.public priv;
  private_key = priv;
  cred_key =
      keys.hkdf (keys.seed priv) (codes "rmm-credential-v1") (codes "agent-authentication") 64;
}

unfoldable pub load_block : KeyLibrary → Option PemBlock → KeyResult
load_block keys none = err invalid_file
load_block keys (some block) =
    if not (text_eq block.kind (codes "PRIVATE KEY"))
    then err invalid_file
    else if not (length block.body == seed_size)
    then err invalid_size
    else ok (new_platform keys (keys.key_from_seed block.body))

unfoldable pub load_platform_key : KeyLibrary → Disk → Bytes → KeyResult
load_platform_key keys disk content =
    if disk.can_read then load_block keys (keys.pem_decode content) else err os_error

-- The file is opened with O_TRUNC before the key is written: a failed write leaves a part of it.
unfoldable pub write_key : KeyLibrary → Disk → Bytes → KeyResult × Disk
write_key keys disk priv =
    let text = keys.pem_encode (record { kind = codes "PRIVATE KEY"; body = keys.seed priv }) in
    if not disk.can_open
    then (err os_error, disk)
    else if disk.can_write
    then (ok (new_platform keys priv), record disk { file = some text })
    else (err os_error, record disk { file = some (take disk.written text) })

unfoldable pub generate_platform_key : KeyLibrary → Disk → KeyResult × Disk
generate_platform_key keys disk = elim disk.random [
  | none ↦ (err os_error, disk)
  | some random ↦ write_key keys disk (keys.generate_key random)
]

-- `fileExists` is a successful stat.
unfoldable pub load_or_create_platform : KeyLibrary → Disk → KeyResult × Disk
load_or_create_platform keys disk = elim disk.file [
  | some content ↦ (load_platform_key keys disk content, disk)
  | none ↦ generate_platform_key keys disk
]

-- A platform that was created is the one that every later start loads, on any disk that kept the
-- file and can read it: its fingerprint and credentials survive a restart.
pub load_after_create :
    (keys : KeyLibrary) (before later : Disk) (p : Platform)
    → KeyLibraryLaws keys
    → before.file ≡ none
    → (load_or_create_platform keys before).0 ≡ ok p
    → later.file ≡ (load_or_create_platform keys before).1.file
    → later.can_read ≡ true
    → load_or_create_platform keys later ≡ (ok p, later)
unfolding load_or_create_platform generate_platform_key write_key load_platform_key load_block
load_after_create keys before later p laws fresh made kept readable =
    elim (Option-cases before.random) [
      | inl no_random ↦ absurd (ground arith)
      | inr (random, e) ↦
          let priv = keys.generate_key random in
          let size = laws.length-seed random in
          let same = laws.key_from_seed-seed random in
          let decoded =
            laws.pem_decode-pem_encode
              (record { kind = codes "PRIVATE KEY"; body = keys.seed priv }) in
          ground (arith, text_eq_refl (codes "PRIVATE KEY"))
    ]

-- A start whose write fails leaves a file behind, so that the next start does not create a key:
-- unless what was written decodes, it fails too.
pub create_write_fault :
    (keys : KeyLibrary) (before : Disk) (random : Bytes)
    → before.file ≡ none
    → before.random ≡ some random
    → before.can_open ≡ true
    → before.can_write ≡ false
    → before.can_read ≡ true
    → keys.pem_decode (
        take before.written (
          keys.pem_encode
            (record { kind = codes "PRIVATE KEY"; body = keys.seed (keys.generate_key random) })))
      ≡ none
    → (load_or_create_platform keys (load_or_create_platform keys before).1).0 ≡ err invalid_file
unfolding load_or_create_platform generate_platform_key write_key load_platform_key load_block
create_write_fault keys before random fresh rnd can_open cannot readable torn =
    rw (fresh, rnd) (ground arith)
