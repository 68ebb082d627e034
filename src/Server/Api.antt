-- ===== src/Server/Api.antt =====
-- cmd/server/handler_api.go: the REST handlers. A body that encoding/json decodes is an argument:
-- `none` is an error of Decode.
use rmm.Base.{
  ℕ, List, [], ◌∷◌, ◌++◌, Bytes, codes, text_eq, if◌then◌else◌, not, Option, none, some, take,
}
use rmm.Base.Map.{Map, get, nat_eq}
use rmm.Http.{
  Request, Response, failed, replied, status_bad_request, status_unauthorized, status_forbidden,
  status_method_not_allowed, status_internal_server_error, error_json,
}
use rmm.Store.{
  AgentRecord, EnrollmentToken, ApiKey, Call, Result, ok, err, StoreError, token_already_used,
  token_expired, constraint_violated, driver_failed,
}
use rmm.Security.Platform.{Platform, sign_credential, credential_hash, fingerprint}
use rmm.Security.Token.{
  Random, hash_enrollment_code, hash_api_key, generate_enrollment_token, TokenError,
  invalid_token_type, random_failed,
}
use rmm.Security.Token
use rmm.Server.State.{LiveAgent, Services, Server}

pub record EnrollRequest : Type 0 where
  pub code : Bytes
  pub name : Bytes
  pub hostname : Bytes
  pub os : Bytes
  pub arch : Bytes

pub record TokenRequest : Type 0 where
  pub kind : Bytes
  pub label : Bytes

-- The bodies that the handlers encode.
pub data Reply : Type 0 where
  agents : List LiveAgent → Reply
  -- The agent's ID, its credential, the fingerprint, and the CA certificate if there is one.
  enrolled : Bytes → Bytes → Bytes → Option Bytes → Reply
  tokens : List EnrollmentToken → Reply
  -- The ID, the code, the type and label, and the expiry.
  token_created : Bytes → Bytes → Bytes → Bytes → ℕ → Reply
  deleted : Reply
  -- The key's name, and the fingerprint.
  key_valid : Bytes → Bytes → Reply

-- The text of an error of the store.
abbrev pub error_text : StoreError → Bytes
error_text token_already_used = codes "enrollment token already used"
error_text token_expired = codes "enrollment token expired"
error_text constraint_violated = codes "constraint failed"
error_text driver_failed = codes "database error"

-- An empty certificate is left out.
abbrev pub present : Option Bytes → Option Bytes
present none = none
present (some []) = none
present (some (c ∷ cs)) = some (c ∷ cs)

abbrev pub method_not_allowed : Response Reply
method_not_allowed = failed status_method_not_allowed (codes "method not allowed")

-- The agents that the registry names, in the order of a range over the map.
unfoldable pub listed : Map ℕ LiveAgent → Map Bytes ℕ → List LiveAgent
listed live [] = []
listed live ((id, conn) ∷ rest) = elim (get conn live) [
  | none ↦ listed live rest
  | some a ↦ a ∷ listed live rest
]

module _ {S : Type 0} (services : Services S) where
  abbrev Answer : Type 0
  Answer = Response Reply × Server S

  abbrev pub with_store : Server S → S → Server S
  with_store s db = record s { store = db }

  unfoldable pub handle_list_agents : Request → Server S → Answer
  handle_list_agents r s = (replied (agents (listed s.live s.agents)), s)

  -- `HashAPIKey(code + fingerprint)[:16]`
  unfoldable pub enrolled_id : Platform → Bytes → Bytes
  enrolled_id platform code =
      take 16 (hash_api_key services.sha256 (code ++ fingerprint services.sha256 platform))

  abbrev pub agent_rec : Call → Bytes → EnrollRequest → Bytes → AgentRecord
  agent_rec call agent_id req credential = record {
    id = agent_id;
    name = req.name;
    hostname = req.hostname;
    os = req.os;
    arch = req.arch;
    credential_hash = credential_hash services.sha256 credential;
    enrolled_at = call.now;
    last_seen = call.now;
  }

  -- From the consumed token on: the agent is signed for and stored.
  unfoldable pub store_agent : Call → Bytes → EnrollRequest → Server S → Answer
  store_agent call agent_id req s =
      let credential = sign_credential services.sha512 s.platform agent_id in
      let (result, db) =
        services.store.create_agent call (agent_rec call agent_id req credential) s.store in
      elim result [
        | err e ↦ (
          failed status_internal_server_error (error_json (codes "enrollment failed")),
          with_store s db,
        )
        | ok _ ↦ (
          replied (
              enrolled agent_id credential (fingerprint services.sha256 s.platform)
                (present s.tls_ca)),
          with_store s db,
        )
      ]

  -- The answer to the consumption of the token.
  unfoldable pub after_consume :
      Call → Bytes → EnrollRequest → Result (Option EnrollmentToken) → Server S → Answer
  after_consume call agent_id req (err e) s =
      (failed status_forbidden (error_json (error_text e)), s)
  after_consume call agent_id req (ok none) s =
      (failed status_forbidden (error_json (codes "invalid enrollment code")), s)
  after_consume call agent_id req (ok (some t)) s = store_agent call agent_id req s

  -- `first` and `second` are the store's two calls.
  unfoldable pub handle_enroll : Call → Call → Request → Option EnrollRequest → Server S → Answer
  handle_enroll first second r body s =
      if not (text_eq r.meth (codes "POST")) then (method_not_allowed, s) else elim body [
        | none ↦ (failed status_bad_request (error_json (codes "invalid request body")), s)
        | some req ↦
            if text_eq req.code []
            then (failed status_bad_request (error_json (codes "enrollment code required")), s)
            else let agent_id = enrolled_id s.platform req.code in
              let (result, db) =
                services.store.consume_enrollment_token first
                  (hash_enrollment_code services.sha256 req.code) agent_id s.store in
              after_consume second agent_id req result (with_store s db)
      ]

  unfoldable pub list_tokens : Call → Server S → Answer
  list_tokens call s = elim (services.store.list_enrollment_tokens call s.store) [
    | err e ↦ (failed status_internal_server_error (error_json (codes "failed to list tokens")), s)
    | ok ts ↦ (replied (tokens ts), s)
  ]

  -- The error of `GenerateEnrollmentToken`.
  abbrev pub token_error_text : TokenError → Bytes → Bytes
  token_error_text invalid_token_type kind = codes "invalid token type: " ++ kind
  token_error_text random_failed kind = codes "random source failed"

  unfoldable pub store_token : Call → EnrollmentToken → Bytes → Server S → Answer
  store_token call t code s =
      let (result, db) = services.store.create_enrollment_token call t s.store in
      elim result [
        | err e ↦ (
          failed status_internal_server_error (error_json (codes "failed to create token")),
          with_store s db,
        )
        | ok _ ↦ (replied (token_created t.id code t.kind t.label t.expires_at), with_store s db)
      ]

  unfoldable pub create_token : Call → Random → Bytes → Option TokenRequest → Server S → Answer
  create_token call random id_bytes body s = elim body [
    | none ↦ (failed status_bad_request (error_json (codes "invalid request")), s)
    | some req ↦
        let kind = if text_eq req.kind [] then codes "attended" else req.kind in
        elim (generate_enrollment_token services.sha256 random id_bytes call.now kind req.label) [
          | Token.err e ↦ (failed status_bad_request (error_json (token_error_text e kind)), s)
          | Token.ok (t, code) ↦ store_token call t code s
        ]
  ]

  unfoldable pub delete_token : Call → Request → Server S → Answer
  delete_token call r s =
      let id = r.query (codes "id") in
      if text_eq id []
      then (failed status_bad_request (error_json (codes "id required")), s)
      else let (result, db) = services.store.delete_enrollment_token call id s.store in
        elim result [
          | err e ↦ (
            failed status_internal_server_error (error_json (codes "failed to delete")),
            with_store s db,
          )
          | ok _ ↦ (replied deleted, with_store s db)
        ]

  unfoldable pub handle_enrollment_tokens :
      Call → Random → Bytes → Request → Option TokenRequest → Server S → Answer
  handle_enrollment_tokens call random id_bytes r body s =
      if text_eq r.meth (codes "GET")
      then list_tokens call s
      else if text_eq r.meth (codes "POST")
      then create_token call random id_bytes body s
      else if text_eq r.meth (codes "DELETE")
      then delete_token call r s
      else (method_not_allowed, s)

  unfoldable pub answer_key : Result (Option ApiKey) → Server S → Answer
  answer_key (ok (some k)) s =
      (replied (key_valid k.name (fingerprint services.sha256 s.platform)), s)
  answer_key (ok none) s = (failed status_unauthorized (error_json (codes "invalid API key")), s)
  answer_key (err e) s = (failed status_unauthorized (error_json (codes "invalid API key")), s)

  -- `body` is the key of the request, if it decodes.
  unfoldable pub handle_auth_verify : Call → Request → Option Bytes → Server S → Answer
  handle_auth_verify call r body s =
      if not (text_eq r.meth (codes "POST")) then (method_not_allowed, s) else elim body [
        | none ↦ (failed status_bad_request (error_json (codes "key required")), s)
        | some key ↦
            if text_eq key []
            then (failed status_bad_request (error_json (codes "key required")), s)
            else let (result, db) =
                services.store.verify_api_key call (hash_api_key services.sha256 key) s.store in
              answer_key result (with_store s db)
      ]
