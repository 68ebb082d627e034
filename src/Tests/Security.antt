-- ===== src/Tests/Security.antt =====
-- Credentials, codes and keys with a checksum as the hash.
use rmm.Base.{
  ℕ, ◌≡◌, ◌+◌, ◌*◌, ◌↔◌, ◌≢◌, refl, [], ◌∷◌, ◌++◌, Bytes, codes, arith, take, text_eq, none, some,
}
use rmm.Http.{replied}
use rmm.Store.{EnrollmentToken, ApiKey}
use rmm.Store.Sqlite.{Tables}
use rmm.Security.Hex.{encode, decode, decode-encode}
use rmm.Security.Platform.{ok, agent_mac, verify_credential}
use rmm.Security.Platform.Credential.{credential_text, verify_credential_iff}
use rmm.Security.Token.{
  Random, hash_code, hash_enrollment_code, generate_enrollment_token, token_terms, make_token,
  code_of, format_code, parts_of, join_dashes, random_hex,
}
use rmm.Security.Token.Code.{hash_enrollment_code-generate}
use rmm.Security.Middleware.{Handler}
use rmm.Tests.Samples.{checksum, platform}

decode-encode_example : decode (encode (0 ∷ 171 ∷ 255 ∷ [])) ≡ some (0 ∷ 171 ∷ 255 ∷ [])
decode-encode_example = decode-encode (0 ∷ 171 ∷ 255 ∷ []) (ground arith)

verify_credential_iff_example :
    (verify_credential checksum platform (codes "v1.a1.00") ≡ ok (codes "a1")) ↔ (
      (mac_hex : Bytes) × (codes "a1" ≢ [])
      × (codes "v1.a1.00" ≡ credential_text (codes "a1") mac_hex)
      × (decode mac_hex ≡ some (agent_mac checksum platform (codes "a1"))))
verify_credential_iff_example =
    verify_credential_iff checksum platform (codes "v1.a1.00") (codes "a1")

abbrev random : Random
random n = some (0 ∷ 1 ∷ 2 ∷ 3 ∷ 31 ∷ 5 ∷ 6 ∷ 7 ∷ [])

abbrev made : EnrollmentToken × Bytes
made =
    make_token checksum (codes "attended") (codes "lab") (1 ∷ 2 ∷ []) 42 (15 * (60 * 1_000_000_000))
      (0 ∷ 1 ∷ 2 ∷ 3 ∷ 31 ∷ 5 ∷ 6 ∷ 7 ∷ [])

hash_enrollment_code-generate_example :
    hash_enrollment_code checksum (codes " " ++ (codes "abcd-afgh" ++ codes " \n"))
    ≡ made.0.code_hash
unfolding generate_enrollment_token token_terms make_token code_of format_code parts_of join_dashes
    text_eq
hash_enrollment_code-generate_example =
    hash_enrollment_code-generate checksum random (1 ∷ 2 ∷ []) (codes "attended") (codes "lab") 42
      (codes " ") (codes "abcd-afgh") (codes " \n") made.1 made.0 refl (refl, tt) (refl, (refl, tt))
      refl

abbrev api_key : ApiKey
api_key = record {
  id = random_hex (1 ∷ 2 ∷ []);
  name = codes "admin";
  key_hash = hash_code checksum (codes "rmm_000102031f050607");
  prefix = codes "rmm_00010203";
  created_at = 42;
  last_used = none;
}

abbrev echo : Handler (Tables × ℕ) ℕ
echo r (db, n) = (replied n, (db, n + 1))

abbrev sha1 : Bytes → Bytes
sha1 s = take 3 s
