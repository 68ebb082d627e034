-- ===== src/Security/Token/Code.antt =====
-- A code that is displayed is the code that is looked up, however a user types it.
use rmm.Base.{
  ℕ, ◌+◌, ◌*◌, ◌<◌, ◌≡◌, ap, [], ◌∷◌, ◌++◌, Bytes, codes, text_eq_iff, take, map, none, arith,
  Option-cases, ◌⊎◌, inl, inr,
}
use mathlib.Core.List.{reverse, reverse-append, reverse-reverse}
use rmm.Security.Hmac.{Hash}
use rmm.Store.{EnrollmentToken, ApiKey}
use rmm.Go.Strings.{trim_space}
use rmm.Security.Token.{
  Random, hash_code, code_of, format_code, ok, token_terms, make_token, generate_enrollment_token,
  remove_dashes, to_upper, hash_enrollment_code, generate_api_key, hash_api_key,
}
use rmm.Security.Token.Plain.{
  code_of-IsPlain, remove_dashes-format_code, format_code-IsVisible, typed-IsVisible,
  remove_dashes-to_upper, AllSpace, trim_left-IsVisible, trim_space-around,
}

lookup_hash :
    (sha256 : Hash) (bytes front typed back : Bytes)
    → AllSpace front
    → AllSpace back
    → map to_upper typed ≡ format_code (code_of bytes)
    → hash_enrollment_code sha256 (front ++ (typed ++ back)) ≡ hash_code sha256 (code_of bytes)
unfolding hash_enrollment_code
lookup_hash sha256 bytes front typed back hf hb same =
    let plain = code_of-IsPlain bytes in
    let visible = typed-IsVisible typed (rw same (format_code-IsVisible _ plain)) in
    rw (trim_space-around front typed back hf visible hb, remove_dashes-to_upper typed, same)
      (ap (hash_code sha256) (remove_dashes-format_code (code_of bytes) plain))

-- A code that was generated is found again: whatever white space stands around what the user types,
-- and in whatever case it is typed, its hash is the one that the token was stored under.
pub hash_enrollment_code-generate :
    (sha256 : Hash) (random : Random) (id_bytes kind label : Bytes) (now : ℕ)
    (front typed back display : Bytes) (t : EnrollmentToken)
    → generate_enrollment_token sha256 random id_bytes now kind label ≡ ok (t, display)
    → AllSpace front
    → AllSpace back
    → map to_upper typed ≡ display
    → hash_enrollment_code sha256 (front ++ (typed ++ back)) ≡ t.code_hash
unfolding generate_enrollment_token make_token
hash_enrollment_code-generate sha256 random id_bytes kind label now front typed back display t e hf
      hb same =
    elim (Option-cases (token_terms kind)) [
      | inl bad ↦ absurd (ground arith)
      | inr ((code_len, expiry), terms) ↦ elim (Option-cases (random code_len)) [
        | inl failed ↦ absurd (ground arith)
        | inr (bytes, filled) ↦ ground (arith, lookup_hash sha256 bytes front typed back hf hb)
      ]
    ]

-- A token is made for the two types only, and it expires 15 minutes or 7 days after it was made; it
-- is not used.
pub generate_enrollment_token_lem :
    (sha256 : Hash) (random : Random) (id_bytes kind label : Bytes) (now : ℕ) (display : Bytes)
    (t : EnrollmentToken)
    → generate_enrollment_token sha256 random id_bytes now kind label ≡ ok (t, display)
    → (((kind ≡ codes "attended") × (t.expires_at ≡ t.created_at + 900 * 1_000_000_000))
        ⊎ ((kind ≡ codes "unattended") × (t.expires_at ≡ t.created_at + 604_800 * 1_000_000_000)))
      × (t.created_at ≡ now)
      × (t.used_at ≡ none)
unfolding generate_enrollment_token make_token token_terms
generate_enrollment_token_lem sha256 random id_bytes kind label now display t e =
    ground (arith, text_eq_iff kind (codes "attended"), text_eq_iff kind (codes "unattended"))

-- An API key that was generated is found by its hash, and its prefix is the start of the key.
pub hash_api_key-generate :
    (sha256 : Hash) (random : Random) (id_bytes name : Bytes) (now : ℕ) (key : Bytes) (k : ApiKey)
    → generate_api_key sha256 random id_bytes now name ≡ ok (k, key)
    → (hash_api_key sha256 key ≡ k.key_hash)
      × (k.prefix ≡ take 12 key)
      × (take 4 key ≡ codes "rmm_")
unfolding generate_api_key hash_api_key
hash_api_key-generate sha256 random id_bytes name now key k e = ground arith

-- White space inside a code is not removed: only what stands around the text is, and the dashes.
pub hash_enrollment_code_inside :
    (sha256 : Hash) (first last : ℕ) (middle : Bytes)
    → 32 < first
    → 32 < last
    → let code = first ∷ (middle ++ (last ∷ [])) in
      hash_enrollment_code sha256 code ≡ hash_code sha256 (map to_upper (remove_dashes code))
unfolding hash_enrollment_code
hash_enrollment_code_inside sha256 first last middle hf hl =
    ap (λ s. hash_code sha256 (map to_upper (remove_dashes s))) kept
  where
    back : reverse (first ∷ (middle ++ (last ∷ []))) ≡ last ∷ reverse (first ∷ middle)
    back = reverse-append (first ∷ middle) (last ∷ [])

    kept : trim_space (first ∷ (middle ++ (last ∷ []))) ≡ first ∷ (middle ++ (last ∷ []))
    kept =
        unfold trim_space in
        rw
          (
            trim_left-IsVisible first (middle ++ (last ∷ [])) hf,
            back,
            trim_left-IsVisible last (reverse (first ∷ middle)) hl,
            ← back,
          )
          (reverse-reverse (first ∷ (middle ++ (last ∷ []))))
