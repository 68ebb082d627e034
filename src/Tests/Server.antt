-- ===== src/Tests/Server.antt =====
-- The server with one agent and two viewers.
use rmm.Base.{ℕ, ◌≡◌, [], ◌∷◌, Bytes, codes, arith, none, some}
use rmm.Base.Map.{get, bytes_eq, nat_eq}
use rmm.Protocol.Frame.{Frame, op_text, op_binary}
use rmm.Store.{Call}
use rmm.Store.Sqlite.{Tables, migrated}
use rmm.Server.State.{Server, new_server}
use rmm.Server.Agent.{register_agent, agent_message_round, to_viewer}
use rmm.Server.Viewer.{bare, connect_viewer, viewer_input_round}
use rmm.Server.Api.{EnrollRequest}
use rmm.Server.Reconnect.{stale_agent_disconnect, stale_viewer_disconnect}
use rmm.Server.Relay.{AgentTraffic, agent_round-AgentTraffic}
use rmm.Tests.Samples.{platform, call, agent_rec, services, registration}

abbrev start : Server Tables
start = new_server migrated platform none

abbrev with_agent : Server Tables
with_agent = register_agent services call 1 (codes "10.0.0.1:4711") agent_rec registration start

abbrev with_viewer : Server Tables
with_viewer = connect_viewer services call 2 (codes "a1") 1 with_agent

abbrev screen : Frame
screen = record { opcode = op_binary; payload = 1 ∷ 2 ∷ [] }

abbrev click : Frame
click = record { opcode = op_text; payload = b'i' ∷ codes "click" }

agent_round-AgentTraffic_example :
    AgentTraffic services call 1
      (codes "a1")
      screen
      with_viewer
      (agent_message_round services call 1 (codes "a1") (some screen) with_viewer)
agent_round-AgentTraffic_example =
    agent_round-AgentTraffic services call 1 (codes "a1") screen with_viewer

stale_agent_disconnect_example :
    let s₂ =
      register_agent services call 2 (codes "10.0.0.1:4711") agent_rec registration with_agent in
    let s₃ = agent_message_round services call 1 (codes "a1") none s₂ in
    (get (codes "a1") s₂.agents ≡ some 2)
    × (get (codes "a1") s₃.agents ≡ none)
    × (get 2 s₃.agent_loops ≡ some (codes "a1"))
stale_agent_disconnect_example =
    stale_agent_disconnect services call call call 1 2 (codes "10.0.0.1:4711") agent_rec
      registration start (ground arith)

stale_viewer_disconnect_example :
    let s₂ = connect_viewer services call 3 (codes "a1") 1 with_viewer in
    let s₃ = viewer_input_round services call 2 (codes "a1") 1 none s₂ in
    (get (codes "a1") s₂.viewers ≡ some 3)
    × (get 3 s₃.viewer_loops ≡ some (codes "a1", 1))
    × (s₃.sent
        ≡ (1, record { opcode = op_text; payload = bare services (codes "stop_capture") })
          ∷ s₂.sent)
    × ((call' : Call) (opcode : ℕ) (payload : Bytes)
        → to_viewer services call' (codes "a1") opcode payload s₃ ≡ s₃)
stale_viewer_disconnect_example =
    stale_viewer_disconnect services call call call 2 3 (codes "a1") 1 with_agent (ground arith)

abbrev enroll_request : EnrollRequest
enroll_request = record {
  code = codes "abcd";
  name = codes "desk";
  hostname = codes "desk.local";
  os = codes "linux";
  arch = codes "amd64";
}
