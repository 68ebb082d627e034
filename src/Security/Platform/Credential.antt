-- ===== src/Security/Platform/Credential.antt =====
-- SignCredential and VerifyCredential.
use rmm.Base.{
  ℕ, suc, ◌+◌, ◌≤◌, ◌<◌, ◌≡◌, refl, ap, sym, ◌∙◌, ◌≢◌, ◌↔◌, [], ◌∷◌, ◌++◌, Bytes, codes, All,
  IsByte, ltb, leb, length, take, drop, get_or, false, not, ◌||◌, some, arith, length-append,
  Bool-cases, Option-cases, inl, inr, text_eq, text_eq_iff, take-append_length, take-append-drop,
  take-take, length-take, length-drop,
}
use native.Mathlib.Numerals.{add-one}
use rmm.Security.Hex.{encode, decode, decode-encode, decode_facts}
use rmm.Security.Hmac.{Hash, hmac_sha512-shape, hmac_equal_iff}
use rmm.Security.Platform.{
  Platform, ok, agent_mac, sign_credential, last_dot_from, check_mac, verify_credential,
}
use rmm.Security.Platform.Dots.{split_at, last_dot_from_range, last_dot_from_skip}

-- The text of a credential with this ID and MAC text.
abbrev pub credential_text : Bytes → Bytes → Bytes
credential_text id mac_hex = codes "v1." ++ (id ++ (b'.' ∷ mac_hex))

drop_behind : (xs ys : Bytes) (c : ℕ) → drop (suc (length xs)) (xs ++ (c ∷ ys)) ≡ ys
drop_behind [] ys c = refl
drop_behind (x ∷ xs) ys c = drop_behind xs ys c

leb_late : (i : ℕ) → leb i 3 ≡ false → 3 < i
leb_late i h = ground arith

layout :
    (c : Bytes) (i : ℕ)
    → take 3 c ≡ codes "v1."
    → 3 ≤ i
    → i < length c
    → get_or c i 0 ≡ b'.'
    → c ≡ credential_text (drop 3 (take i c)) (drop (i + 1) c)
layout c i version late below here =
    split_at i c below
    ∙ ap (◌++◌ (take i c)) (ap (λ d. d ∷ drop (i + 1) c) here)
    ∙ ap (λ t. t ++ (b'.' ∷ drop (i + 1) c)) front
  where
    front : take i c ≡ codes "v1." ++ drop 3 (take i c)
    front =
        sym (take-append-drop 3 (take i c))
        ∙ ap (λ t. t ++ drop 3 (take i c)) (take-take 3 i c late ∙ version)

module _ (sha512 : Hash) (p : Platform) where
  agent_mac-IsByte : (id : Bytes) → All IsByte (agent_mac sha512 p id)
  unfolding agent_mac
  agent_mac-IsByte id = (hmac_sha512-shape sha512 p.cred_key _).0

  check_mac_iff :
      (id mac_hex out : Bytes)
      → (check_mac sha512 p id mac_hex ≡ ok out)
        ↔ ((decode mac_hex ≡ some (agent_mac sha512 p id)) × (id ≡ out))
  unfolding check_mac
  check_mac_iff id mac_hex out = (to, from)
    where
      to :
          check_mac sha512 p id mac_hex ≡ ok out
          → (decode mac_hex ≡ some (agent_mac sha512 p id)) × (id ≡ out)
      to e = elim (Option-cases (decode mac_hex)) [
        | inl bad ↦ absurd (ground arith)
        | inr (mac, e') ↦
            let same =
              hmac_equal_iff mac (agent_mac sha512 p id) (decode_facts mac_hex mac e').0
                (agent_mac-IsByte id) in
            ground (arith, same)
      ]

      from :
          (decode mac_hex ≡ some (agent_mac sha512 p id)) × (id ≡ out)
          → check_mac sha512 p id mac_hex ≡ ok out
      from (e, same) =
          rw (e, check_mac, (hmac_equal_iff _ _ (agent_mac-IsByte id) (agent_mac-IsByte id)).1 refl)
            (ap ok same)

  verify_text :
      (id mac_hex : Bytes)
      → id ≢ []
      → All (λ c. c ≢ b'.') mac_hex
      → verify_credential sha512 p (credential_text id mac_hex) ≡ check_mac sha512 p id mac_hex
  unfolding verify_credential text_eq
  verify_text [] mac_hex h hm = absurd (h refl)
  verify_text (x ∷ id) mac_hex h hm =
      rw (long, dot) (rw (add-one, behind, take-append_length id (b'.' ∷ mac_hex)) (ground arith))
    where
      front : Bytes
      front = codes "v1." ++ (x ∷ id)

      behind : drop (suc (length id)) (id ++ (b'.' ∷ mac_hex)) ≡ mac_hex
      behind = drop_behind id mac_hex b'.'

      long : ltb (length (front ++ (b'.' ∷ mac_hex))) 5 ≡ false
      long = ground (arith, length-append id (b'.' ∷ mac_hex))

      dot :
          last_dot_from (length (front ++ (b'.' ∷ mac_hex))) (front ++ (b'.' ∷ mac_hex))
          ≡ some (length front)
      dot =
          last_dot_from_skip _ (length mac_hex) front mac_hex (omega arith) hm (omega arith)
            (omega (arith, length-append front (b'.' ∷ mac_hex)))

  verify_inv :
      (c out : Bytes)
      → verify_credential sha512 p c ≡ ok out
      → (id : Bytes) × (mac_hex : Bytes) × (id ≢ [])
        × (c ≡ credential_text id mac_hex)
        × (check_mac sha512 p id mac_hex ≡ ok out)
  unfolding verify_credential
  verify_inv c out e =
      elim (Bool-cases (ltb (length c) 5 || not (text_eq (take 3 c) (codes "v1.")))) [
        | inl bad ↦ absurd (ground arith)
        | inr good ↦ elim (Option-cases (last_dot_from (length c) c)) [
          | inl missing ↦ absurd (ground arith)
          | inr (i, found) ↦ elim (Bool-cases (leb i 3)) [
            | inl early ↦ absurd (ground arith)
            | inr late ↦
                let (_, below, here) = last_dot_from_range (length c) i c found in
                (
                  drop 3 (take i c),
                  drop (i + 1) c,
                  λ none_left. absurd (
                      omega (
                        arith,
                        leb_late i late,
                        ap length none_left,
                        length-drop 3 (take i c),
                        length-take i c,
                      )),
                  layout c i (ground (arith, text_eq_iff (take 3 c) (codes "v1."))) (ground arith)
                      below here,
                  ground arith,
                )
          ]
        ]
      ]

  -- A credential is accepted exactly when it has the v1 layout around a non-empty ID and its MAC
  -- text decodes to the MAC of that ID under the platform's key; the result is that ID.
  pub verify_credential_iff :
      (credential id : Bytes)
      → (verify_credential sha512 p credential ≡ ok id) ↔ (
          (mac_hex : Bytes) × (id ≢ [])
          × (credential ≡ credential_text id mac_hex)
          × (decode mac_hex ≡ some (agent_mac sha512 p id)))
  verify_credential_iff credential id = (to, from)
    where
      to :
          verify_credential sha512 p credential ≡ ok id
          → (mac_hex : Bytes) × (id ≢ [])
            × (credential ≡ credential_text id mac_hex)
            × (decode mac_hex ≡ some (agent_mac sha512 p id))
      to e =
          let (id', mac_hex, ne, split, checked) = verify_inv credential id e in
          let (decoded, same) = (check_mac_iff id' mac_hex id).0 checked in
          (mac_hex, rw same at ne, rw same at split, rw same at decoded)

      from :
          ((mac_hex : Bytes) × (id ≢ [])
            × (credential ≡ credential_text id mac_hex)
            × (decode mac_hex ≡ some (agent_mac sha512 p id)))
          → verify_credential sha512 p credential ≡ ok id
      from (mac_hex, ne, split, decoded) = rw split (
          verify_text id mac_hex ne (decode_facts mac_hex _ decoded).1
          ∙ (check_mac_iff id mac_hex id).1 (decoded, refl))

  -- Every credential that the platform signs for a non-empty ID verifies as that ID.
  pub verify_credential-sign_credential :
      (id : Bytes) → id ≢ [] → verify_credential sha512 p (sign_credential sha512 p id) ≡ ok id
  unfolding sign_credential
  verify_credential-sign_credential id ne =
      (verify_credential_iff _ id).1
        (encode (agent_mac sha512 p id), ne, refl, decode-encode _ (agent_mac-IsByte id))
