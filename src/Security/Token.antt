-- ===== src/Security/Token.antt =====
-- internal/security/token.go: enrollment codes and API keys. The text is ASCII; random bytes and the
-- clock are arguments.
pub mod Plain
pub mod Code
use rmm.Base.{
  ℕ, zero, suc, ◌+◌, ◌-◌, ◌*◌, ◌%◌, List, [], ◌∷◌, ◌++◌, Bytes, codes, ltb, leb, ◌==◌, text_eq,
  if◌then◌else◌, length, take, get_or, map, Bool, true, false, ◌&&◌, ◌||◌, Option, none, some,
}
use mathlib.Core.List.{reverse}
use rmm.Go.Strings.{trim_space}
use rmm.Security.Hex.{encode}
use rmm.Security.Hmac.{Hash}
use rmm.Store.{EnrollmentToken, ApiKey}

abbrev pub token_alphabet : Bytes
token_alphabet = codes "ABCDEFGHJKMNPQRSTUVWXYZ23456789"

-- The bytes that `rand.Read` fills a buffer of a given size with; `none` is its error.
abbrev pub Random : Type 0
Random = ℕ → Option Bytes

unfoldable pub hash_code : Hash → Bytes → Bytes
hash_code sha256 s = encode (sha256.sum s)

-- `randomHex(n)` on the buffer, whatever became of it: the error of `rand.Read` is dropped.
unfoldable pub random_hex : Bytes → Bytes
random_hex buffer = encode buffer

unfoldable pub code_of : Bytes → Bytes
code_of bytes = map (λ b. get_or token_alphabet (b % length token_alphabet) 0) bytes

-- The slices of four bytes.
unfoldable pub parts_of : Bytes → List Bytes
parts_of [] = []
parts_of (a ∷ []) = (a ∷ []) ∷ []
parts_of (a ∷ (b ∷ [])) = (a ∷ b ∷ []) ∷ []
parts_of (a ∷ (b ∷ (c ∷ []))) = (a ∷ b ∷ c ∷ []) ∷ []
parts_of (a ∷ (b ∷ (c ∷ (d ∷ code)))) = (a ∷ b ∷ c ∷ d ∷ []) ∷ parts_of code

-- `strings.Join(parts, "-")`.
unfoldable pub join_dashes : List Bytes → Bytes
join_dashes [] = []
join_dashes (part ∷ []) = part
join_dashes (part ∷ (next ∷ parts)) = part ++ (b'-' ∷ join_dashes (next ∷ parts))

unfoldable pub format_code : Bytes → Bytes
format_code code = join_dashes (parts_of code)

pub data TokenError : Type 0 where
  invalid_token_type random_failed : TokenError

pub data Result {ℓ} (A : Type ℓ) : Type ℓ where
  ok : A → Result A
  err : TokenError → Result A

abbrev pub minute : ℕ
minute = 60 * 1_000_000_000

abbrev pub hour : ℕ
hour = 60 * minute

-- The length of the code and the lifetime of the token, by its type.
unfoldable pub token_terms : Bytes → Option (ℕ × ℕ)
token_terms kind =
    if text_eq kind (codes "attended")
    then some (8, 15 * minute)
    else if text_eq kind (codes "unattended")
    then some (24, 7 * 24 * hour)
    else none

-- The token for the store, and the code for display. `id_bytes` is the buffer of the token's ID.
unfoldable pub make_token : Hash → Bytes → Bytes → Bytes → ℕ → ℕ → Bytes → EnrollmentToken × Bytes
make_token sha256 kind label id_bytes now expiry bytes = (
  record {
    id = random_hex id_bytes;
    code_hash = hash_code sha256 (code_of bytes);
    kind = kind;
    label = label;
    created_at = now;
    expires_at = now + expiry;
    used_at = none;
    used_by = [];
  },
  format_code (code_of bytes),
)

unfoldable pub generate_enrollment_token :
    Hash → Random → Bytes → ℕ → Bytes → Bytes → Result (EnrollmentToken × Bytes)
generate_enrollment_token sha256 random id_bytes now kind label = elim (token_terms kind) [
  | none ↦ err invalid_token_type
  | some (code_len, expiry) ↦ elim (random code_len) [
    | none ↦ err random_failed
    | some bytes ↦ ok (make_token sha256 kind label id_bytes now expiry bytes)
  ]
]

-- `strings.TrimSpace`, `strings.ReplaceAll(s, "-", "")` and `strings.ToUpper` on ASCII text.
unfoldable pub remove_dashes : Bytes → Bytes
remove_dashes [] = []
remove_dashes (c ∷ s) = if c == b'-' then remove_dashes s else c ∷ remove_dashes s

abbrev pub to_upper : ℕ → ℕ
to_upper c = if leb b'a' c && leb c b'z' then c - 32 else c

unfoldable pub hash_enrollment_code : Hash → Bytes → Bytes
hash_enrollment_code sha256 code = hash_code sha256 (map to_upper (remove_dashes (trim_space code)))

-- The key for the store, and the key's text, of 32 random bytes.
unfoldable pub generate_api_key : Hash → Random → Bytes → ℕ → Bytes → Result (ApiKey × Bytes)
generate_api_key sha256 random id_bytes now name = elim (random 32) [
  | none ↦ err random_failed
  | some raw ↦
      let key = codes "rmm_" ++ encode raw in
      ok (
        record {
          id = random_hex id_bytes;
          name = name;
          key_hash = hash_code sha256 key;
          prefix = take 12 key;
          created_at = now;
          last_used = none;
        },
        key,
      )
]

unfoldable pub hash_api_key : Hash → Bytes → Bytes
hash_api_key sha256 key = hash_code sha256 key
