-- ===== src/Server/Reconnect.antt =====
-- cmd/server/handler_agent.go, cmd/server/handler_viewer.go: a second connection for one agent.
use rmm.Base.{ℕ, ◌≡◌, refl, ◌∙◌, ◌≢◌, ◌∷◌, Bytes, codes, none, some}
use rmm.Base.Map.{get, get-put_same, get-delete_same, get-delete_other, bytes_eq, nat_eq}
use rmm.Protocol.Frame.{op_text}
use rmm.Protocol.Message.{Registration}
use rmm.Store.{Call, AgentRecord}
use rmm.Server.State.{Services, Server, new_live_agent}
use rmm.Server.Agent.{register_agent, agent_message_round, agent_disconnect, to_viewer}
use rmm.Server.Viewer.{bare, connect_viewer, viewer_input_round, viewer_disconnect}

module _ {S : Type 0} (services : Services S) where
  -- An agent that registers again on a new connection takes its entry of the registry, and when the
  -- old connection ends the entry is gone, though the loop of the new connection runs on.
  pub stale_agent_disconnect :
      (first second last : Call) (old new : ℕ) (addr : Bytes) (enrolled : AgentRecord)
      (reg : Registration) (s : Server S)
      → old ≢ new
      → let s₂ =
          register_agent services second new addr enrolled reg
            (register_agent services first old addr enrolled reg s) in
        let s₃ = agent_message_round services last old enrolled.id none s₂ in
        (get enrolled.id s₂.agents ≡ some new)
        × (get enrolled.id s₃.agents ≡ none)
        × (get new s₃.agent_loops ≡ some enrolled.id)
  unfolding register_agent new_live_agent agent_message_round agent_disconnect
  stale_agent_disconnect first second last old new addr enrolled reg s ne = (
    get-put_same enrolled.id new _,
    get-delete_same enrolled.id _,
    get-delete_other old new _ ne ∙ get-put_same new enrolled.id _,
  )

  to_viewer_absent :
      (call : Call) (id : Bytes) (opcode : ℕ) (payload : Bytes) (s : Server S)
      → get id s.viewers ≡ none
      → to_viewer services call id opcode payload s ≡ s
  unfolding to_viewer
  to_viewer_absent call id opcode payload s e = rw (e, to_viewer) refl

  -- When a viewer is replaced by a second one of the same agent and its own connection ends, the
  -- second is out of the map though its loop runs on: the agent is told to stop, and nothing that the
  -- agent sends is relayed any more.
  pub stale_viewer_disconnect :
      (first second last : Call) (old new : ℕ) (id : Bytes) (agent : ℕ) (s : Server S)
      → old ≢ new
      → let s₂ =
          connect_viewer services second new id agent
            (connect_viewer services first old id agent s) in
        let s₃ = viewer_input_round services last old id agent none s₂ in
        (get id s₂.viewers ≡ some new)
        × (get new s₃.viewer_loops ≡ some (id, agent))
        × (s₃.sent
            ≡ (agent, record { opcode = op_text; payload = bare services (codes "stop_capture") })
              ∷ s₂.sent)
        × ((call : Call) (opcode : ℕ) (payload : Bytes)
            → to_viewer services call id opcode payload s₃ ≡ s₃)
  unfolding connect_viewer viewer_input_round viewer_disconnect to_viewer
  stale_viewer_disconnect first second last old new id agent s ne = (
    get-put_same id new _,
    get-delete_other old new _ ne ∙ get-put_same new (id, agent) _,
    refl,
    λ call opcode payload. to_viewer_absent call id opcode payload _ (get-delete_same id _),
  )
