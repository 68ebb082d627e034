-- ===== src/Security/Platform.antt =====
-- internal/security/platform.go: the platform's key pair, and the credentials that it signs.
-- Ed25519, HKDF, SHA-256 and SHA-512 are parameters.
pub mod Dots
pub mod Credential
pub mod KeyFile
use rmm.Base.{
  ℕ, zero, suc, ◌+◌, List, [], ◌∷◌, ◌++◌, Bytes, codes, ltb, leb, ◌==◌, text_eq, if◌then◌else◌,
  length, take, drop, get_or, Bool, true, false, not, ◌||◌, Option, none, some,
}
use rmm.Security.Hex.{encode, decode}
use rmm.Security.Hmac.{Hash, hmac_sha512, hmac_equal}

pub record Platform : Type 0 where
  pub public_key : Bytes
  pub private_key : Bytes
  pub cred_key : Bytes

pub data CredentialError : Type 0 where
  unsupported_version malformed malformed_mac invalid : CredentialError

pub data Result {ℓ} (A : Type ℓ) : Type ℓ where
  ok : A → Result A
  err : CredentialError → Result A

unfoldable pub fingerprint : Hash → Platform → Bytes
fingerprint sha256 p = encode (sha256.sum p.public_key)

-- The MAC of an agent ID, by the derived key.
unfoldable pub agent_mac : Hash → Platform → Bytes → Bytes
agent_mac sha512 p agent_id = hmac_sha512 sha512 p.cred_key (codes "agent-credential:" ++ agent_id)

-- fmt.Sprintf("v1.%s.%s", agentID, hex)
unfoldable pub sign_credential : Hash → Platform → Bytes → Bytes
sign_credential sha512 p agent_id =
    codes "v1." ++ (agent_id ++ (b'.' ∷ encode (agent_mac sha512 p agent_id)))

-- `for i := len(credential) - 1; i >= 3; i--`, on `i + 1`; `none` is -1.
unfoldable pub last_dot_from : ℕ → Bytes → Option ℕ
last_dot_from zero credential = none
last_dot_from (suc i) credential =
    let rest = last_dot_from i credential in
    if ltb i 3 then none else if get_or credential i 0 == b'.' then some i else rest

-- From the MAC on: the ID and the text behind the last dot are found.
unfoldable pub check_mac : Hash → Platform → Bytes → Bytes → Result Bytes
check_mac sha512 p agent_id mac_hex = elim (decode mac_hex) [
  | none ↦ err malformed_mac
  | some provided ↦
      if not (hmac_equal provided (agent_mac sha512 p agent_id)) then err invalid else ok agent_id
]

unfoldable pub verify_credential : Hash → Platform → Bytes → Result Bytes
verify_credential sha512 p credential =
    if ltb (length credential) 5 || not (text_eq (take 3 credential) (codes "v1."))
    then err unsupported_version
    else elim (last_dot_from (length credential) credential) [
      | none ↦ err malformed
      | some last_dot ↦
          if leb last_dot 3
          then err malformed
          else check_mac sha512 p (drop 3 (take last_dot credential))
              (drop (last_dot + 1) credential)
    ]

unfoldable pub credential_hash : Hash → Bytes → Bytes
credential_hash sha256 credential = encode (sha256.sum credential)
