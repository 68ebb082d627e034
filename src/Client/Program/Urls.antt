-- ===== src/Client/Program/Urls.antt =====
-- cmd/agent/main.go: the URL that an agent enrolls with, and the one it connects to.
use rmm.Base.{
  ℕ, zero, suc, [], ◌∷◌, ◌++◌, Bytes, codes, if◌then◌else◌, replicate, true, false, none, ◌≡◌, ◌≢◌,
  refl, ap, sym, Bool-cases, inl, inr, ◌∙◌, arith, append_assoc, append-nil,
}
use mathlib.Core.List.{reverse, reverse-append, reverse-reverse, reverse-cons}
use rmm.Go.Strings.{has_prefix, trim_byte_left, trim_byte_right, index, cut, replace_first}
use rmm.Go.Strings.Laws.{Without}
use rmm.Go.Strings.Index.{Without-append}
use rmm.Client.Program.{base_url, to_ws}

abbrev slash : ℕ
slash = b'/'

has_prefix-slash : (s q r : Bytes) → Without slash s → has_prefix s (q ++ (slash ∷ r)) ≡ false
unfolding has_prefix
has_prefix-slash [] [] r w = refl
has_prefix-slash [] (b ∷ q) r w = refl
has_prefix-slash (c ∷ s) [] r (e, w) = ground (arith, e)
has_prefix-slash (c ∷ s) (b ∷ q) r (e, w) = ground (arith, has_prefix-slash s q r w)

index_cons :
    (c : ℕ) (s p : Bytes) → has_prefix (c ∷ s) p ≡ false → index s p ≡ none → index (c ∷ s) p ≡ none
unfolding index
index_cons c s p h e = ground (arith, h, e)

index_slash : (s q r : Bytes) → Without slash s → index s (q ++ (slash ∷ r)) ≡ none
index_slash [] q r w = unfold index in rw (has_prefix-slash [] q r w) refl
index_slash (c ∷ s) q r (e, w) =
    index_cons c s (q ++ (slash ∷ r)) (has_prefix-slash (c ∷ s) q r (e, w)) (index_slash s q r w)

replace_none : (s old new : Bytes) → index s old ≡ none → replace_first s old new ≡ s
unfolding replace_first cut
replace_none s old new e = ground (arith, e)

module _ (host : Bytes) (w : Without slash host) where
  no_http : index host (codes "http://") ≡ none
  no_http = index_slash host (codes "http:") (codes "/") w

  no_https : index host (codes "https://") ≡ none
  no_https = index_slash host (codes "https:") (codes "/") w

  first_https :
      replace_first (codes "https://" ++ host) (codes "https://") (codes "wss://")
      ≡ codes "wss://" ++ host
  unfolding replace_first cut index has_prefix
  first_https = refl

  first_http :
      replace_first (codes "http://" ++ host) (codes "http://") (codes "ws://")
      ≡ codes "ws://" ++ host
  unfolding replace_first cut index has_prefix
  first_http = refl

  no_http_in_wss : index (codes "wss://" ++ host) (codes "http://") ≡ none
  unfolding has_prefix
  no_http_in_wss =
      let p = codes "http://" in
      let i₁ = index_cons slash host p refl no_http in
      let i₂ = index_cons slash (slash ∷ host) p refl i₁ in
      let i₃ = index_cons b':' (codes "//" ++ host) p refl i₂ in
      let i₄ = index_cons b's' (codes "://" ++ host) p refl i₃ in
      let i₅ = index_cons b's' (codes "s://" ++ host) p refl i₄ in
      index_cons b'w' (codes "ss://" ++ host) p refl i₅

  no_https_in_http : index (codes "http://" ++ host) (codes "https://") ≡ none
  unfolding has_prefix
  no_https_in_http =
      let p = codes "https://" in
      let i₁ = index_cons slash host p refl no_https in
      let i₂ = index_cons slash (slash ∷ host) p refl i₁ in
      let i₃ = index_cons b':' (codes "//" ++ host) p refl i₂ in
      let i₄ = index_cons b'p' (codes "://" ++ host) p refl i₃ in
      let i₅ = index_cons b't' (codes "p://" ++ host) p refl i₄ in
      let i₆ = index_cons b't' (codes "tp://" ++ host) p refl i₅ in
      index_cons b'h' (codes "ttp://" ++ host) p refl i₆

  to_ws-https : to_ws (codes "https://" ++ host) ≡ codes "wss://" ++ host
  unfolding to_ws
  to_ws-https =
      ap (λ u. replace_first u (codes "http://") (codes "ws://")) first_https
      ∙ replace_none (codes "wss://" ++ host) (codes "http://") (codes "ws://") no_http_in_wss

  to_ws-http : to_ws (codes "http://" ++ host) ≡ codes "ws://" ++ host
  unfolding to_ws
  to_ws-http =
      ap (λ u. replace_first u (codes "http://") (codes "ws://"))
        (replace_none (codes "http://" ++ host) (codes "https://") (codes "wss://")
          no_https_in_http)
      ∙ first_http

  to_ws_bare : to_ws host ≡ host
  unfolding to_ws
  to_ws_bare =
      ap (λ u. replace_first u (codes "http://") (codes "ws://"))
        (replace_none host (codes "https://") (codes "wss://") no_https)
      ∙ replace_none host (codes "http://") (codes "ws://") no_http

abbrev slashes : ℕ → Bytes
slashes n = replicate n slash

trim_slashes :
    (n : ℕ) (s : Bytes) → trim_byte_right slash (s ++ slashes n) ≡ trim_byte_right slash s
unfolding trim_byte_right trim_byte_left
trim_slashes zero s = ap (trim_byte_right slash) (append-nil s)
trim_slashes (suc n) s =
    ap (trim_byte_right slash) (sym (append_assoc s (slash ∷ []) (slashes n)))
    ∙ (trim_slashes n (s ++ (slash ∷ []))
        ∙ ap (λ r. reverse (trim_byte_left slash r)) (reverse-append s (slash ∷ [])))

trim_keeps : (s t : Bytes) → s ≢ [] → Without slash s → trim_byte_left slash (s ++ t) ≡ s ++ t
unfolding trim_byte_left
trim_keeps [] t h w = absurd (h refl)
trim_keeps (c ∷ s) t h (e, w) = rw e refl

Without-reverse : (s : Bytes) → Without slash s → Without slash (reverse s)
Without-reverse [] w = tt
Without-reverse (c ∷ s) (e, w) =
    rw reverse-cons (Without-append slash (reverse s) (c ∷ []) (Without-reverse s w) (e, tt))

reverse-ne-nil : (s : Bytes) → s ≢ [] → reverse s ≢ []
reverse-ne-nil s h e = h (sym (reverse-reverse s) ∙ ap reverse e)

-- Slashes behind a host are trimmed.
trim_host :
    (front host : Bytes) (n : ℕ)
    → host ≢ []
    → Without slash host
    → trim_byte_right slash ((front ++ host) ++ slashes n) ≡ front ++ host
unfolding trim_byte_right
trim_host front host n h w =
    trim_slashes n (front ++ host)
    ∙ (ap (λ r. reverse (trim_byte_left slash r)) (reverse-append front host)
        ∙ (ap reverse (
              trim_keeps (reverse host) (reverse front) (reverse-ne-nil host h)
                (Without-reverse host w))
            ∙ (ap reverse (sym (reverse-append front host)) ∙ reverse-reverse (front ++ host))))

base_url_kept :
    (server_url base : Bytes)
    → trim_byte_right slash server_url ≡ base
    → has_prefix base (codes "http") ≡ true
    → base_url server_url ≡ base
unfolding base_url
base_url_kept server_url base e h = rw (e, h) refl

base_url_added :
    (server_url base : Bytes)
    → trim_byte_right slash server_url ≡ base
    → has_prefix base (codes "http") ≡ false
    → base_url server_url ≡ codes "https://" ++ base
unfolding base_url
base_url_added server_url base e h = rw (e, h) refl

bare_host :
    (host : Bytes) (n : ℕ)
    → host ≢ []
    → Without slash host
    → to_ws (base_url (host ++ slashes n))
      ≡ (if has_prefix host (codes "http") then host else codes "wss://" ++ host)
bare_host host n h w =
    let trimmed = trim_host [] host n h w in
    elim (Bool-cases (has_prefix host (codes "http"))) [
      | inl e ↦
          rw e (ap to_ws (base_url_kept (host ++ slashes n) host trimmed e) ∙ to_ws_bare host w)
      | inr e ↦
          rw e (ap to_ws (base_url_added (host ++ slashes n) host trimmed e) ∙ to_ws-https host w)
    ]

-- For a host and port, with any number of slashes behind: an agent that enrolls with https:// or with
-- no scheme connects over wss://, and one that enrolls with http:// over ws://. But a host without a
-- scheme that starts with "http" itself gets none: it stays as it is.
pub to_ws-base_url :
    (host : Bytes) (n : ℕ)
    → host ≢ []
    → Without slash host
    → (to_ws (base_url ((codes "https://" ++ host) ++ slashes n)) ≡ codes "wss://" ++ host)
      × (to_ws (base_url ((codes "http://" ++ host) ++ slashes n)) ≡ codes "ws://" ++ host)
      × (to_ws (base_url (host ++ slashes n))
          ≡ (if has_prefix host (codes "http") then host else codes "wss://" ++ host))
unfolding has_prefix
to_ws-base_url host n h w = (
  ap to_ws
        (base_url_kept _ (codes "https://" ++ host) (trim_host (codes "https://") host n h w) refl)
      ∙ to_ws-https host w,
  ap to_ws (base_url_kept _ (codes "http://" ++ host) (trim_host (codes "http://") host n h w) refl)
      ∙ to_ws-http host w,
  bare_host host n h w,
)
