-- ===== src/Security/Middleware.antt =====
-- internal/security/middleware.go: API keys on HTTP requests. A handler passes on the store, and the
-- rest of the server's state.
use rmm.Base.{
  ◌≡◌, refl, ◌≢◌, [], Bytes, codes, text_eq, text_eq_iff, if◌then◌else◌, not, ◌&&◌, Option, none,
  some, arith, drop, length, if_rule,
}
use rmm.Go.Strings.{has_prefix}
use rmm.Http.{Request, Response, failed, status_unauthorized, error_json}
use rmm.Store.{Store, ApiKey, Call, Result, ok, err}
use rmm.Security.Hmac.{Hash}
use rmm.Security.Token.{hash_api_key}

-- `strings.HasPrefix`.
abbrev bearer : Bytes
bearer = codes "Bearer "

unfoldable pub extract_key : Request → Bytes
extract_key r =
    let auth = r.header (codes "Authorization") in
    if not (text_eq auth []) && has_prefix auth bearer
    then drop (length bearer) auth
    else r.query (codes "token")

abbrev pub Handler : Type 0 → Type 0 → Type 0
Handler S B = Request → S → Response B × S

-- From the answer of the store on.
unfoldable pub admit {ℓ} : {R : Type ℓ} → Result (Option ApiKey) → R → R → R
admit (err e) refused admitted = refused
admit (ok none) refused admitted = refused
admit (ok (some k)) refused admitted = admitted

module _ {S W B : Type 0} (store : Store S) (sha256 : Hash) (call : Call) where
  unfoldable pub wrap : Handler (S × W) B → Handler (S × W) B
  wrap next r (s, w) =
      let key = extract_key r in
      if text_eq key []
      then (failed status_unauthorized (error_json (codes "authentication required")), (s, w))
      else let (result, s') = store.verify_api_key call (hash_api_key sha256 key) s in
        admit result (failed status_unauthorized (error_json (codes "invalid API key")), (s', w))
          (next r (s', w))

  -- What may have become of a request: it was answered 401 and the handler did not run, or it bears a
  -- key whose hash the store knows and the handler's answer stands.
  pub data Guarded (next : Handler (S × W) B) (r : Request) (s : S) (w : W)
      (out : Response B × (S × W)) : Type 0 where
    refused :
        (text : Bytes)
        → out.0 ≡ failed status_unauthorized text
        → out.1.1 ≡ w
        → Guarded next r s w out
    admitted :
        (k : ApiKey)
        → extract_key r ≢ []
        → (store.verify_api_key call (hash_api_key sha256 (extract_key r)) s).0 ≡ ok (some k)
        → out ≡ next r ((store.verify_api_key call (hash_api_key sha256 (extract_key r)) s).1, w)
        → Guarded next r s w out

  -- A wrapped handler runs only for a request whose key the store verifies.
  pub wrap-Guarded :
      (next : Handler (S × W) B) (r : Request) (s : S) (w : W)
      → Guarded next r s w (wrap next r (s, w))
  unfolding wrap
  wrap-Guarded next r s w =
      if_rule (Guarded next r s w) (text_eq (extract_key r) []) _ _ (λ _. refused _ refl refl)
        λ present.
          from_store (λ e. ground (arith, text_eq_iff (extract_key r) []))
            (store.verify_api_key call (hash_api_key sha256 (extract_key r)) s) refl
    where
      from_store :
          (extract_key r ≢ [])
          → (p : Result (Option ApiKey) × S)
          → store.verify_api_key call (hash_api_key sha256 (extract_key r)) s ≡ p
          → Guarded next r s w (
              admit p.0
                (failed status_unauthorized (error_json (codes "invalid API key")), (p.1, w))
                (next r (p.1, w)))
      from_store ne (err e, s') same = unfold admit in refused _ refl refl
      from_store ne (ok none, s') same = unfold admit in refused _ refl refl
      from_store ne (ok (some k), s') same = unfold admit in admitted k ne (cc) (rw same)
