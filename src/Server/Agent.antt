-- ===== src/Server/Agent.antt =====
-- cmd/server/handler_agent.go: handleAgent, agentMessageLoop and handleAgentTextMessage. A frame that
-- is read is an argument; `none` is an error of ReadFrame. One round of the loop is one step.
use rmm.Base.{
  ℕ, [], Bytes, codes, ◌==◌, text_eq, if◌then◌else◌, Bool, true, false, not, Option, none, some,
}
use rmm.Base.Int.{ℤ, pos, lt_ℕ}
use rmm.Base.Map.{get, put, delete, nat_eq, bytes_eq}
use rmm.Http.{Request, Response, failed, status_bad_request}
use rmm.Protocol.Frame.{Frame, op_text, op_binary, op_close, op_ping, op_pong}
use rmm.Protocol.Message.{Registration}
use rmm.Store.{Store, AgentRecord, Call, Result}
use rmm.Store
use rmm.Security.Platform.{Platform, verify_credential, credential_hash}
use rmm.Security.Platform
use rmm.Server.State.{LiveAgent, Services, Server, new_live_agent, send, close}
use rmm.Server.Upgrade.{upgraded, Hijack, upgrade_websocket}

infixl 5 ◌>>=◌
abbrev pub ◌>>=◌ : {A B : Type 0} → Option A → (A → Option B) → Option B
none >>= f = none
some a >>= f = f a

abbrev pub guard : Bool → Option (Unit {0})
guard true = some tt
guard false = none

abbrev pub verified : Platform.Result Bytes → Option Bytes
verified (Platform.ok id) = some id
verified (Platform.err e) = none

abbrev pub found : Result (Option AgentRecord) → Option AgentRecord
found (Store.ok o) = o
found (Store.err e) = none

-- `if displayCount < 1 { displayCount = 1 }`
abbrev pub at_least_one : ℤ → ℤ
at_least_one n = if lt_ℕ n 1 then pos 1 else n

-- The response to a registration.
abbrev pub registered : {S : Type 0} → Services S → Bytes → Bytes
registered services id =
    services.encode_message (record { kind = codes "registered"; payload = services.encode_id id })

module _ {S : Type 0} (services : Services S) (call : Call) where
  -- The checks of a registration, in order: every failure closes the connection.
  unfoldable pub check_registration :
      Platform → S → Option Frame → Option (AgentRecord × Registration)
  check_registration platform db frame = do
    f ← frame
    _ ← guard (f.opcode == op_text)
    msg ← services.decode_message f.payload
    _ ← guard (text_eq msg.kind (codes "register"))
    reg ← services.decode_registration msg.payload
    _ ← guard (not (text_eq reg.credential []))
    agent_id ← verified (verify_credential services.sha512 platform reg.credential)
    enrolled ← found (
        services.store.get_agent_by_credential call (credential_hash services.sha256 reg.credential)
          db)
    some (enrolled, reg)

  -- The agent enters the registry, in the place of one of its ID, and the loop starts.
  unfoldable pub register_agent : ℕ → Bytes → AgentRecord → Registration → Server S → Server S
  register_agent conn remote_addr enrolled reg s =
      let agent =
        new_live_agent enrolled reg remote_addr (at_least_one reg.display_count) conn call.now in
      send conn op_text (registered services enrolled.id) (record s {
        agents = put agent.id conn s.agents;
        live = put conn agent s.live;
        agent_loops = put conn agent.id s.agent_loops;
      })

  unfoldable pub handle_agent :
      ℕ → Hijack → Request → Option Frame → Server S → Option (Response (Unit {0})) × Server S
  handle_agent conn outcome r frame s =
      elim (upgrade_websocket services.sha1 services.base64 outcome r) [
        | upgraded response ↦ elim (check_registration s.platform s.store frame) [
          | none ↦ (none, close conn s)
          | some (enrolled, reg) ↦ (none, register_agent conn r.remote_addr enrolled reg s)
        ]
        | other ↦ (some (failed status_bad_request (codes "WebSocket upgrade failed")), s)
      ]

  -- The deferred function of handleAgent.
  unfoldable pub agent_disconnect : ℕ → Bytes → Server S → Server S
  agent_disconnect conn id s =
      let s₁ =
        close conn
          (record s { agents = delete id s.agents; agent_loops = delete conn s.agent_loops }) in
      record s₁ { store = (services.store.update_agent_seen call id call.now s₁.store).1 }

  abbrev pub update_live : ℕ → (LiveAgent → LiveAgent) → Server S → Server S
  update_live conn f s = elim (get conn s.live) [
    | none ↦ s
    | some a ↦ record s { live = put conn (f a) s.live }
  ]

  -- `if vc, ok := s.viewers[agent.ID]; ok { WriteServerFrame(vc, opcode, data) }`
  unfoldable pub to_viewer : Bytes → ℕ → Bytes → Server S → Server S
  to_viewer id opcode payload s = elim (get id s.viewers) [
    | none ↦ s
    | some viewer ↦ send viewer opcode payload s
  ]

  unfoldable pub handle_agent_text_message : ℕ → Bytes → Bytes → Server S → Server S
  handle_agent_text_message conn id payload s = elim (services.decode_message payload) [
    | none ↦ s
    | some m ↦
        if text_eq m.kind (codes "display_switched")
        then to_viewer id op_text payload s
        else if text_eq m.kind (codes "heartbeat")
        then update_live conn (λ a. record a { status = codes "online" }) s
        else s
  ]

  -- One round of agentMessageLoop, on the connection of the agent `id`.
  unfoldable pub agent_message_round : ℕ → Bytes → Option Frame → Server S → Server S
  agent_message_round conn id none s = agent_disconnect conn id s
  agent_message_round conn id (some f) s =
      let s₁ = update_live conn (λ a. record a { last_seen = call.now }) s in
      if f.opcode == op_close
      then agent_disconnect conn id s₁
      else if f.opcode == op_ping
      then send conn op_pong f.payload s₁
      else if f.opcode == op_binary
      then to_viewer id op_binary f.payload s₁
      else if f.opcode == op_text
      then handle_agent_text_message conn id f.payload s₁
      else s₁
