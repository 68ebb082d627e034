-- ===== src/Server/Routes.antt =====
-- cmd/server/main.go: the table of routes, with the middleware over the two that need a key. A path is
-- as the multiplexer of net/http cleaned it; the files of the dashboard are served by net/http.
use rmm.Base.{
  ℕ, ◌≡◌, ◌≢◌, refl, ap, ◌⊎◌, inl, inr, [], Bytes, codes, text_eq, if◌then◌else◌, Option, some,
  arith,
}
use rmm.Http.{Request, Response, failed, status_unauthorized}
use rmm.Protocol.Frame.{Frame}
use rmm.Store.{Call, ApiKey, ok}
use rmm.Security.Token.{Random, hash_api_key}
use rmm.Security.Middleware.{extract_key, wrap, wrap-Guarded, Guarded}
use rmm.Server.State.{Services, Server}
use rmm.Server.Upgrade.{Hijack}
use rmm.Server.Agent.{handle_agent}
use rmm.Server.Viewer.{handle_viewer}
use rmm.Server.Api.{
  Reply, EnrollRequest, TokenRequest, handle_list_agents, handle_enroll, handle_enrollment_tokens,
  handle_auth_verify,
}

pub data Route : Type 0 where
  enroll_route agent_route verify_route agents_route enrollment_route viewer_route static_route :
      Route

unfoldable pub route : Bytes → Route
route path =
    if text_eq path (codes "/api/enroll")
    then enroll_route
    else if text_eq path (codes "/ws/agent")
    then agent_route
    else if text_eq path (codes "/api/auth/verify")
    then verify_route
    else if text_eq path (codes "/api/agents")
    then agents_route
    else if text_eq path (codes "/api/enrollment")
    then enrollment_route
    else if text_eq path (codes "/ws/viewer")
    then viewer_route
    else static_route

-- A request with what the world adds to it: the store's calls, the decoded bodies, randomness, the
-- number of its connection, the hijack, and the first frame of an agent.
pub record Arrival : Type 0 where
  pub path : Bytes
  pub request : Request
  pub auth_call : Call
  pub first_call : Call
  pub second_call : Call
  pub enroll_body : Option EnrollRequest
  pub token_body : Option TokenRequest
  pub key_body : Option Bytes
  pub random : Random
  pub id_bytes : Bytes
  pub conn : ℕ
  pub hijack : Hijack
  pub frame : Option Frame

pub data Served : Type 0 where
  answered : Response Reply → Served
  socket : Option (Response (Unit {0})) → Served
  file : Bytes → Served

module _ {S : Type 0} (services : Services S) where
  abbrev pub Answer : Type 0
  Answer = Response Reply × Server S

  -- The handler's server with the store that the middleware passes on.
  abbrev pub behind :
      (Request → Server S → Answer) → Request → S × Server S → Response Reply × (S × Server S)
  behind next r (db, s) =
      let (response, s') = next r (record s { store = db }) in (response, (s'.store, s'))

  -- `auth.Wrap(next)`.
  unfoldable pub protect : Call → (Request → Server S → Answer) → Request → Server S → Answer
  protect call next r s =
      let (response, (db, s')) =
        wrap services.store services.sha256 call (behind next) r (s.store, s) in
      (response, record s' { store = db })

  unfoldable pub protected : Route → Arrival → Request → Server S → Answer
  protected enrollment_route x r s =
      handle_enrollment_tokens services x.first_call x.random x.id_bytes r x.token_body s
  protected _ x r s = handle_list_agents services r s

  abbrev answer_with : Answer → Served × Server S
  answer_with (response, s) = (answered response, s)

  unfoldable pub serve_route : Route → Arrival → Server S → Served × Server S
  serve_route enroll_route x s =
      answer_with (handle_enroll services x.first_call x.second_call x.request x.enroll_body s)
  serve_route agent_route x s =
      let (response, s') = handle_agent services x.first_call x.conn x.hijack x.request x.frame s in
      (socket response, s')
  serve_route verify_route x s =
      answer_with (handle_auth_verify services x.first_call x.request x.key_body s)
  serve_route agents_route x s =
      answer_with (protect x.auth_call (protected agents_route x) x.request s)
  serve_route enrollment_route x s =
      answer_with (protect x.auth_call (protected enrollment_route x) x.request s)
  serve_route viewer_route x s =
      let (response, s') = handle_viewer services x.first_call x.conn x.hijack x.request s in
      (socket response, s')
  serve_route static_route x s = (file x.path, s)

  unfoldable pub serve : Arrival → Server S → Served × Server S
  serve x s = serve_route (route x.path) x s

  -- What becomes of a request behind the middleware: it is answered 401 and at most the store has
  -- changed, or its key is one that the store verifies and the handler answers.
  pub data Protected (r : Route) (x : Arrival) (s : Server S) (out : Served × Server S)
      : Type 0 where
    refused :
        (text : Bytes) (db : S)
        → out ≡ (answered (failed status_unauthorized text), record s { store = db })
        → Protected r x s out
    admitted :
        (k : ApiKey) (db : S) (response : Response Reply) (s' : Server S)
        → extract_key x.request ≢ []
        → services.store.verify_api_key x.auth_call
            (hash_api_key services.sha256 (extract_key x.request))
            s.store
          ≡ (ok (some k), db)
        → protected r x x.request (record s { store = db }) ≡ (response, s')
        → out ≡ (answered response, s')
        → Protected r x s out

  protect-Protected :
      (r : Route) (x : Arrival) (s : Server S)
      → Protected r x s (answer_with (protect x.auth_call (protected r x) x.request s))
  unfolding protect
  protect-Protected r x s =
      let out =
        wrap services.store services.sha256 x.auth_call (behind (protected r x)) x.request
          (s.store, s) in
      let v =
        services.store.verify_api_key x.auth_call
          (hash_api_key services.sha256 (extract_key x.request)) s.store in
      let next = protected r x x.request (record s { store = v.1 }) in
      elim (wrap-Guarded services.store services.sha256 x.auth_call (behind (protected r x))
        x.request s.store s) [
          | Guarded.refused text e w ↦
              refused text out.1.0 (λ i. (answered (e i), record (w i) { store = out.1.0 }))
          | Guarded.admitted k present known e ↦
              admitted k v.1 next.0 next.1 present (λ i. (known i, v.1)) refl
                (ap
                  (λ (o : Response Reply × (S × Server S)).
                    (answered o.0, record o.1.1 { store = o.1.0 }))
                  e)
        ]

  serve_route-Protected :
      (r : Route) (x : Arrival) (s : Server S)
      → (r ≡ agents_route) ⊎ (r ≡ enrollment_route)
      → Protected r x s (serve_route r x s)
  unfolding serve_route
  serve_route-Protected agents_route x s h = protect-Protected agents_route x s
  serve_route-Protected enrollment_route x s h = protect-Protected enrollment_route x s
  serve_route-Protected enroll_route x s h = absurd (ground (arith, h))
  serve_route-Protected agent_route x s h = absurd (ground (arith, h))
  serve_route-Protected verify_route x s h = absurd (ground (arith, h))
  serve_route-Protected viewer_route x s h = absurd (ground (arith, h))
  serve_route-Protected static_route x s h = absurd (ground (arith, h))

  -- A request to /api/agents or /api/enrollment is answered 401 with at most the store changed, or it
  -- bears a key that the store verifies and the answer and the state of its handler stand.
  pub serve-Protected :
      (x : Arrival) (s : Server S)
      → (x.path ≡ codes "/api/agents") ⊎ (x.path ≡ codes "/api/enrollment")
      → Protected (route x.path) x s (serve x s)
  unfolding serve route text_eq
  serve-Protected x s h =
      serve_route-Protected (route x.path) x s
        (elim h [ inl e ↦ inl (ap route e) | inr e ↦ inr (ap route e) ])
