-- ===== src/Client/Dial/Suffix.antt =====
-- cmd/agent/agent.go: dialWebSocket leaves a suffix of the stream.
use rmm.Base.{
  ℕ, [], ◌∷◌, ◌++◌, Bytes, codes, ◌==◌, text_eq, ltb, length, take, drop, ◌||◌, not, Bool, Option,
  none, some, ◌≡◌, ◌≢◌, if◌then◌else◌, refl, ap, ◌∙◌, sym, append_assoc, Bool-cases, inl, inr,
}
use mathlib.Core.List.{reverse}
use rmm.Go.Strings.{newline}
use rmm.Client.Dial.{
  read_line, skip_headers, read_handshake, Url, dial_host, dials_tls, dial_web_socket, Dialed,
  dialed, dial_error,
}

abbrev pub IsSuffix : Bytes → Bytes → Type 0
IsSuffix rest s = (front : Bytes) × (s ≡ front ++ rest)

further : (c : ℕ) (rest s : Bytes) → IsSuffix rest s → IsSuffix rest (c ∷ s)
further c rest s (front, split) = (c ∷ front, ap (λ t. c ∷ t) split)

trans : (r s t : Bytes) → IsSuffix r s → IsSuffix s t → IsSuffix r t
trans r s t (front, e) (front', e') =
    (front' ++ front, e' ∙ (ap (λ u. front' ++ u) e ∙ sym (append_assoc front' front r)))

same : (s rest : Bytes) → some s ≡ some rest → s ≡ rest
same s rest e = cc

skip_headers-suffix : (line s rest : Bytes) → skip_headers line s ≡ some rest → IsSuffix rest s
unfolding skip_headers
skip_headers-suffix line [] rest e = absurd (cc)
skip_headers-suffix line (c ∷ s) rest e = elim (Bool-cases (c == newline)) [
  | inl nl ↦ elim (Bool-cases (text_eq (reverse (c ∷ line)) (codes "\r\n"))) [
    | inl done ↦ (c ∷ [], ap (λ t. c ∷ t) (same s rest (rw (nl, done, skip_headers) at e)))
    | inr more ↦ further c rest s (skip_headers-suffix [] s rest (rw (nl, more, skip_headers) at e))
  ]
  | inr other ↦
      further c rest s (skip_headers-suffix (c ∷ line) s rest (rw (other, skip_headers) at e))
]

read_line-suffix : (s line rest : Bytes) → read_line s ≡ some (line, rest) → IsSuffix rest s
unfolding read_line
read_line-suffix [] line rest e = absurd (cc)
read_line-suffix (c ∷ s) line rest e = elim (Bool-cases (c == newline)) [
  | inl nl ↦ (c ∷ [], ap (λ t. c ∷ t) (behind (rw (nl, read_line) at e)))
  | inr other ↦
      further c rest s (onto_line (read_line s) (read_line-suffix s) (rw (other, read_line) at e))
]
  where
    behind : {p p' : Bytes × Bytes} → some p ≡ some p' → p.1 ≡ p'.1
    behind {p} {p'} h = (let eq : p ≡ p' = cc in ap (λ (q : Bytes × Bytes). q.1) eq)

    onto_line :
        (o : Option (Bytes × Bytes))
        → ((l r : Bytes) → o ≡ some (l, r) → IsSuffix r s)
        → ◌≡◌ {A = Option (Bytes × Bytes)}
            (elim o [ none ↦ none | some (l, r) ↦ some (c ∷ l, r) ])
            (some (line, rest))
        → IsSuffix rest s
    onto_line none hyp h = absurd (cc)
    onto_line (some (l, r)) hyp h = hyp l rest (rw (behind h) refl)

read_handshake-suffix : (s rest : Bytes) → read_handshake s ≡ some rest → IsSuffix rest s
unfolding read_handshake
read_handshake-suffix s rest e = from (read_line s) (read_line-suffix s) e
  where
    clash : ◌≢◌ {A = Option Bytes} none (some rest)
    clash h = cc

    from :
        (o : Option (Bytes × Bytes))
        → ((l r : Bytes) → o ≡ some (l, r) → IsSuffix r s)
        → ◌≡◌ {A = Option Bytes}
            (elim o [
              | none ↦ none
              | some (l, r) ↦
                  if ltb (length l) 12 || not (text_eq (take 3 (drop 9 l)) (codes "101"))
                  then none
                  else skip_headers [] r
            ])
            (some rest)
        → IsSuffix rest s
    from none hyp h = absurd (cc)
    from (some (l, r)) hyp h =
        elim (Bool-cases (ltb (length l) 12 || not (text_eq (take 3 (drop 9 l)) (codes "101")))) [
          | inl bad ↦ absurd (clash (rw bad at h))
          | inr good ↦ trans rest r s (skip_headers-suffix [] r rest (rw good at h)) (hyp l r refl)
        ]

-- What a dial leaves of the stream is its end.
pub dial_web_socket-suffix :
    (u : Option Url) (has_config : Bool) (connects : Bytes → Bool → Bool) (requested : Bool)
    (key stream host : Bytes) (over_tls : Bool) (request rest : Bytes)
    → dial_web_socket u has_config connects requested key stream ≡ dialed host over_tls request rest
    → IsSuffix rest stream
unfolding dial_web_socket
dial_web_socket-suffix none has_config connects requested key stream host over_tls request rest e =
    absurd (cc)
dial_web_socket-suffix (some u) has_config connects requested key stream host over_tls request rest
      e =
    elim (Bool-cases (not (connects (dial_host u) (dials_tls u has_config)) || not requested)) [
      | inl fails ↦ absurd (clash (rw (fails, dial_web_socket) at e))
      | inr connected ↦
          from _ _ _ (read_handshake stream) (read_handshake-suffix stream)
            (rw (connected, dial_web_socket) at e)
    ]
  where
    clash : dial_error ≢ dialed host over_tls request rest
    clash h = cc

    rest_of : Dialed → Bytes
    rest_of dial_error = []
    rest_of (dialed host over_tls request rest) = rest

    from :
        (host' : Bytes) (over_tls' : Bool) (request' : Bytes) (o : Option Bytes)
        → ((r : Bytes) → o ≡ some r → IsSuffix r stream)
        → ◌≡◌ {A = Dialed}
            (elim o [ none ↦ dial_error | some r ↦ dialed host' over_tls' request' r ])
            (dialed host over_tls request rest)
        → IsSuffix rest stream
    from host' over_tls' request' none hyp h = absurd (clash h)
    from host' over_tls' request' (some r) hyp h = hyp rest (ap (λ d. some (rest_of d)) h)
