-- ===== src/Server/StoreOnly.antt =====
-- cmd/server/handler_api.go: the REST handlers leave the registry, the loops and the connections alone.
use rmm.Base.{[], ◌≡◌, refl, Bytes, codes, text_eq, if◌then◌else◌, not, Option, none, some, if_rule}
use rmm.Http.{Request, Response, failed, status_bad_request, error_json}
use rmm.Store.{Call, EnrollmentToken, ApiKey, Result, ok, err, StoreError}
use rmm.Security.Token.{Random}
use rmm.Security.Token
use rmm.Server.State.{Services, Server}
use rmm.Server.Api.{
  Reply, EnrollRequest, TokenRequest, store_agent, after_consume, handle_enroll, list_tokens,
  store_token, create_token, token_error_text, delete_token, handle_enrollment_tokens, answer_key,
  handle_auth_verify,
}

result_rule :
    {A B : Type 0} (P : B → Type 0) (result : Result A) (f : StoreError → B) (g : A → B)
    → ((e : StoreError) → P (f e))
    → ((a : A) → P (g a))
    → P (elim result [ err e ↦ f e | ok a ↦ g a ])
result_rule P (err e) f g hf hg = hf e
result_rule P (ok a) f g hf hg = hg a

module _ {S : Type 0} (services : Services S) (s : Server S) where
  -- The server after a handler is as before, but for the store.
  abbrev pub StoreOnly : Response Reply × Server S → Type 0
  StoreOnly out = (db : S) × (out.1 ≡ record s { store = db })

  -- The storing of an agent changes nothing but the store.
  pub store_agent-StoreOnly :
      (call : Call) (agent_id : Bytes) (req : EnrollRequest) (db : S)
      → StoreOnly (store_agent services call agent_id req (record s { store = db }))
  unfolding store_agent
  store_agent-StoreOnly call agent_id req db =
      result_rule StoreOnly _ _ _ (λ e. (_, refl)) (λ _. (_, refl))

  after_consume-StoreOnly :
      (call : Call) (agent_id : Bytes) (req : EnrollRequest)
      (result : Result (Option EnrollmentToken)) (db : S)
      → StoreOnly (after_consume services call agent_id req result (record s { store = db }))
  unfolding after_consume
  after_consume-StoreOnly call agent_id req (err e) db = (_, refl)
  after_consume-StoreOnly call agent_id req (ok none) db = (_, refl)
  after_consume-StoreOnly call agent_id req (ok (some t)) db =
      store_agent-StoreOnly call agent_id req db

  -- Enrollment, whatever the request, changes nothing but the store.
  pub handle_enroll-StoreOnly :
      (first second : Call) (r : Request) (body : Option EnrollRequest)
      → StoreOnly (handle_enroll services first second r body s)
  unfolding handle_enroll
  handle_enroll-StoreOnly first second r none =
      if_rule StoreOnly (not (text_eq r.meth (codes "POST"))) _ _ (λ _. (_, refl)) λ _. (_, refl)
  handle_enroll-StoreOnly first second r (some req) =
      if_rule StoreOnly (not (text_eq r.meth (codes "POST"))) _ _ (λ _. (_, refl))
        λ _.
          if_rule StoreOnly (text_eq req.code []) _ _ (λ _. (_, refl))
            λ _. after_consume-StoreOnly second _ req _ _

  list_tokens-StoreOnly : (call : Call) → StoreOnly (list_tokens services call s)
  unfolding list_tokens
  list_tokens-StoreOnly call =
      result_rule StoreOnly (services.store.list_enrollment_tokens call s.store) _ _
        (λ e. (_, refl)) (λ ts. (_, refl))

  create_token-StoreOnly :
      (call : Call) (random : Random) (id_bytes : Bytes) (body : Option TokenRequest)
      → StoreOnly (create_token services call random id_bytes body s)
  unfolding create_token store_token
  create_token-StoreOnly call random id_bytes none = (_, refl)
  create_token-StoreOnly call random id_bytes (some req) = generated _
    where
      generated :
          (result : Token.Result (EnrollmentToken × Bytes))
          → StoreOnly (elim result [
            | Token.err e ↦ (
              failed status_bad_request (
                  error_json (
                    token_error_text services e
                      (if text_eq req.kind [] then codes "attended" else req.kind))),
              s,
            )
            | Token.ok (t, code) ↦ store_token services call t code s
          ])
      generated (Token.err e) = (_, refl)
      generated (Token.ok (t, code)) = result_rule StoreOnly _ _ _ (λ e. (_, refl)) (λ _. (_, refl))

  delete_token-StoreOnly : (call : Call) (r : Request) → StoreOnly (delete_token services call r s)
  unfolding delete_token
  delete_token-StoreOnly call r =
      if_rule StoreOnly (text_eq (r.query (codes "id")) []) _ _ (λ _. (_, refl))
        λ _. result_rule StoreOnly _ _ _ (λ e. (_, refl)) (λ _. (_, refl))

  -- The management of tokens changes nothing but the store.
  pub handle_enrollment_tokens-StoreOnly :
      (call : Call) (random : Random) (id_bytes : Bytes) (r : Request) (body : Option TokenRequest)
      → StoreOnly (handle_enrollment_tokens services call random id_bytes r body s)
  unfolding handle_enrollment_tokens
  handle_enrollment_tokens-StoreOnly call random id_bytes r body =
      if_rule StoreOnly (text_eq r.meth (codes "GET")) _ _ (λ _. list_tokens-StoreOnly call)
        λ _.
          if_rule StoreOnly (text_eq r.meth (codes "POST")) _ _
            (λ _. create_token-StoreOnly call random id_bytes body)
            λ _.
              if_rule StoreOnly (text_eq r.meth (codes "DELETE")) _ _
                (λ _. delete_token-StoreOnly call r) λ _. (_, refl)

  answer_key-StoreOnly :
      (result : Result (Option ApiKey)) (db : S)
      → StoreOnly (answer_key services result (record s { store = db }))
  unfolding answer_key
  answer_key-StoreOnly (ok (some k)) db = (_, refl)
  answer_key-StoreOnly (ok none) db = (_, refl)
  answer_key-StoreOnly (err e) db = (_, refl)

  -- The check of a key changes nothing but the store.
  pub handle_auth_verify-StoreOnly :
      (call : Call) (r : Request) (body : Option Bytes)
      → StoreOnly (handle_auth_verify services call r body s)
  unfolding handle_auth_verify
  handle_auth_verify-StoreOnly call r none =
      if_rule StoreOnly (not (text_eq r.meth (codes "POST"))) _ _ (λ _. (_, refl)) λ _. (_, refl)
  handle_auth_verify-StoreOnly call r (some key) =
      if_rule StoreOnly (not (text_eq r.meth (codes "POST"))) _ _ (λ _. (_, refl))
        λ _. if_rule StoreOnly (text_eq key []) _ _ (λ _. (_, refl)) λ _. answer_key-StoreOnly _ _
