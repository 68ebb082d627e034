-- ===== src/Server/Steps.antt =====
-- cmd/server: the server as a relation of its steps. A step is a handler, a round of a loop, or what a
-- handler does once it has let go of the lock and the state moved on behind the checks that it made.
-- The steps of different connections interleave in any order.
use rmm.Base.{ℕ, ◌≡◌, Bytes, Option, none, some}
use rmm.Base.Map.{get, bytes_eq, nat_eq}
use rmm.Http.{Request}
use rmm.Protocol.Frame.{Frame}
use rmm.Store.{Call, AgentRecord}
use rmm.Protocol.Message.{Registration}
use rmm.Server.Broker.{IsAgent}
use rmm.Security.Platform.{Platform}
use rmm.Security.Token.{Random}
use rmm.Server.State.{Services, Server, new_server}
use rmm.Server.Upgrade.{Hijack}
use rmm.Server.Agent.{handle_agent, agent_message_round, register_agent}
use rmm.Server.Viewer.{handle_viewer, viewer_input_round, connect_viewer}
use rmm.Server.Api.{
  EnrollRequest, TokenRequest, store_agent, handle_enroll, handle_enrollment_tokens,
  handle_auth_verify,
}

module _ {S : Type 0} (services : Services S) where
  -- A connection is a new pointer, which no live agent and no loop has.
  pub data Step (s : Server S) : Server S → Type 0 where
    agent_opens :
        (call : Call) (conn : ℕ) (outcome : Hijack) (r : Request) (frame : Option Frame)
        → get conn s.live ≡ none
        → Step s (handle_agent services call conn outcome r frame s).1
    agent_speaks :
        (call : Call) (conn : ℕ) (id : Bytes) (frame : Option Frame)
        → get conn s.agent_loops ≡ some id
        → Step s (agent_message_round services call conn id frame s)
    viewer_opens :
        (call : Call) (conn : ℕ) (outcome : Hijack) (r : Request)
        → get conn s.viewer_loops ≡ none
        → Step s (handle_viewer services call conn outcome r s).1
    viewer_speaks :
        (call : Call) (conn : ℕ) (id : Bytes) (agent : ℕ) (frame : Option Frame)
        → get conn s.viewer_loops ≡ some (id, agent)
        → Step s (viewer_input_round services call conn id agent frame s)
    -- What a handler does behind the checks that it made in earlier states of the server.
    agent_connects :
        (call : Call) (conn : ℕ) (addr : Bytes) (enrolled : AgentRecord) (reg : Registration)
        → get conn s.live ≡ none
        → Step s (register_agent services call conn addr enrolled reg s)
    viewer_connects :
        (call : Call) (conn : ℕ) (id : Bytes) (agent : ℕ)
        → get conn s.viewer_loops ≡ none
        → IsAgent s.live agent id
        → Step s (connect_viewer services call conn id agent s)
    stores_agent :
        (call : Call) (id : Bytes) (req : EnrollRequest)
        → Step s (store_agent services call id req s).1
    enrolls :
        (first second : Call) (r : Request) (body : Option EnrollRequest)
        → Step s (handle_enroll services first second r body s).1
    manages_tokens :
        (call : Call) (random : Random) (id_bytes : Bytes) (r : Request)
        (body : Option TokenRequest)
        → Step s (handle_enrollment_tokens services call random id_bytes r body s).1
    verifies :
        (call : Call) (r : Request) (body : Option Bytes)
        → Step s (handle_auth_verify services call r body s).1

  pub data Reachable (db : S) (platform : Platform) (tls_ca : Option Bytes)
      : Server S → Type 0 where
    starts : Reachable db platform tls_ca (new_server db platform tls_ca)
    steps :
        {s s' : Server S}
        → Reachable db platform tls_ca s
        → Step s s'
        → Reachable db platform tls_ca s'
