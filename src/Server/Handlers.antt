-- ===== src/Server/Handlers.antt =====
-- cmd/server: every handler and every round keeps the maps and the loops in agreement.
use rmm.Base.{
  ℕ, ◌≡◌, refl, ap, ◌∙◌, Bytes, codes, ◌==◌, text_eq, false, not, ◌||◌, Option, none, some, arith,
  if_rule, option_rule,
}
use rmm.Base.Int.{ℤ, pos, negsuc, lt_ℕ}
use rmm.Base.Map.{get, put, bytes_eq, nat_eq}
use rmm.Http.{Request}
use rmm.Protocol.Frame.{Frame, op_text, op_binary, op_close, op_ping}
use rmm.Protocol.Message.{Registration}
use rmm.Store.{AgentRecord, Call}
use rmm.Server.State.{Services, Server, LiveAgent, new_live_agent}
use rmm.Server.Upgrade.{Hijack}
use rmm.Server.Agent.{
  handle_agent, agent_message_round, agent_disconnect, register_agent, update_live, to_viewer,
  handle_agent_text_message, at_least_one,
}
use rmm.Server.Viewer.{
  handle_viewer, viewer_input_round, viewer_disconnect, forward_input, connect_viewer,
}
use rmm.Server.Broker.{
  IsAgent, IsBroker, register-IsBroker, update-IsBroker, disconnect-IsBroker,
  connect_viewer-IsBroker, disconnect_viewer-IsBroker,
}
use rmm.Server.Admission.{handle_agent-Admission}
use rmm.Server.Admission
use rmm.Server.Admission.Viewers.{handle_viewer-ViewerAdmission}
use rmm.Server.Admission.Viewers

abbrev pub IsConsistent : {S : Type 0} → Server S → Type 0
IsConsistent s = IsBroker s.agents s.viewers s.live s.agent_loops s.viewer_loops

at_least_one_lem : (n : ℤ) → lt_ℕ (at_least_one n) 1 ≡ false
at_least_one_lem (pos n) = ground arith
at_least_one_lem (negsuc n) = refl

module _ {S : Type 0} (services : Services S) (call : Call) where
  agent_disconnect-IsConsistent :
      (s : Server S) (conn : ℕ) (id : Bytes)
      → IsConsistent s
      → get conn s.agent_loops ≡ some id
      → IsConsistent (agent_disconnect services call conn id s)
  unfolding agent_disconnect
  agent_disconnect-IsConsistent s conn id w loop = disconnect-IsBroker w conn id loop

  update_live-IsConsistent :
      (s : Server S) (conn : ℕ) (f : LiveAgent → LiveAgent)
      → IsConsistent s
      → ((a : LiveAgent) → (f a).id ≡ a.id)
      → ((a : LiveAgent) → (f a).display_count ≡ a.display_count)
      → IsConsistent (update_live services call conn f s)
  update_live-IsConsistent s conn f w same_id same_displays = from (get conn s.live) refl
    where
      from :
          (o : Option LiveAgent)
          → get conn s.live ≡ o
          → IsConsistent (elim o [ none ↦ s | some a ↦ record s { live = put conn (f a) s.live } ])
      from none e = w
      from (some a) e = update-IsBroker w conn a (f a) e (same_id a) (same_displays a)

  update_live-loops :
      (s : Server S) (conn : ℕ) (f : LiveAgent → LiveAgent)
      → (update_live services call conn f s).agent_loops ≡ s.agent_loops
  update_live-loops s conn f = from (get conn s.live)
    where
      from :
          (o : Option LiveAgent)
          → (elim o as (λ _. Server S) [
            | none ↦ s
            | some a ↦ record s { live = put conn (f a) s.live }
          ]).agent_loops
            ≡ s.agent_loops
      from none = refl
      from (some a) = refl

  to_viewer-IsConsistent :
      (s : Server S) (id : Bytes) (opcode : ℕ) (payload : Bytes)
      → IsConsistent s
      → IsConsistent (to_viewer services call id opcode payload s)
  unfolding to_viewer
  to_viewer-IsConsistent s id opcode payload w =
      option_rule IsConsistent (get id s.viewers) _ _ w (λ viewer. w)

  text_message-IsConsistent :
      (s : Server S) (conn : ℕ) (id payload : Bytes)
      → IsConsistent s
      → IsConsistent (handle_agent_text_message services call conn id payload s)
  unfolding handle_agent_text_message
  text_message-IsConsistent s conn id payload w =
      option_rule IsConsistent (services.decode_message payload) _ _ w λ m.
        if_rule IsConsistent (text_eq m.kind (codes "display_switched")) _ _
          (λ _. to_viewer-IsConsistent s id op_text payload w)
          λ _.
            if_rule IsConsistent (text_eq m.kind (codes "heartbeat")) _ _
              (λ _. update_live-IsConsistent s conn _ w (λ a. refl) (λ a. refl)) λ _. w

  pub agent_round-IsConsistent :
      (s : Server S) (conn : ℕ) (id : Bytes) (frame : Option Frame)
      → IsConsistent s
      → get conn s.agent_loops ≡ some id
      → IsConsistent (agent_message_round services call conn id frame s)
  unfolding agent_message_round
  agent_round-IsConsistent s conn id none w loop = agent_disconnect-IsConsistent s conn id w loop
  agent_round-IsConsistent s conn id (some f) w loop =
      let s₁ = update_live services call conn (λ a. record a { last_seen = call.now }) s in
      let w₁ : IsConsistent s₁ = update_live-IsConsistent s conn _ w (λ a. refl) (λ a. refl) in
      let loop₁ : get conn s₁.agent_loops ≡ some id =
        ap (get conn) (update_live-loops s conn _) ∙ loop in
      if_rule IsConsistent (f.opcode == op_close) _ _
        (λ _. agent_disconnect-IsConsistent s₁ conn id w₁ loop₁)
        λ _.
          if_rule IsConsistent (f.opcode == op_ping) _ _ (λ _. w₁)
            λ _.
              if_rule IsConsistent (f.opcode == op_binary) _ _
                (λ _. to_viewer-IsConsistent s₁ id op_binary f.payload w₁)
                λ _.
                  if_rule IsConsistent (f.opcode == op_text) _ _
                    (λ _. text_message-IsConsistent s₁ conn id f.payload w₁) λ _. w₁

  pub register-IsConsistent :
      (s : Server S) (conn : ℕ) (addr : Bytes) (enrolled : AgentRecord) (reg : Registration)
      → IsConsistent s
      → get conn s.live ≡ none
      → IsConsistent (register_agent services call conn addr enrolled reg s)
  unfolding register_agent new_live_agent
  register-IsConsistent s conn addr enrolled reg w fresh =
      register-IsBroker w conn
        (new_live_agent enrolled reg addr (at_least_one reg.display_count) conn call.now) fresh
        (at_least_one_lem reg.display_count)

  pub connect_viewer-IsConsistent :
      (s : Server S) (conn : ℕ) (id : Bytes) (agent : ℕ)
      → IsConsistent s
      → get conn s.viewer_loops ≡ none
      → IsAgent s.live agent id
      → IsConsistent (connect_viewer services call conn id agent s)
  unfolding connect_viewer
  connect_viewer-IsConsistent s conn id agent w fresh here =
      connect_viewer-IsBroker w conn id agent fresh here

  pub agent_opens-IsConsistent :
      (s : Server S) (conn : ℕ) (outcome : Hijack) (r : Request) (frame : Option Frame)
      → IsConsistent s
      → get conn s.live ≡ none
      → IsConsistent (handle_agent services call conn outcome r frame s).1
  agent_opens-IsConsistent s conn outcome r frame w fresh =
      elim (handle_agent-Admission services call conn outcome r frame s) [
        | Admission.refused _ same ↦ rw same w
        | Admission.turned_away _ _ _ same ↦ rw same w
        | Admission.joined response enrolled reg _ _ same ↦
            rw same (register-IsConsistent s conn r.remote_addr enrolled reg w fresh)
      ]

  pub viewer_round-IsConsistent :
      (s : Server S) (conn : ℕ) (id : Bytes) (agent : ℕ) (frame : Option Frame)
      → IsConsistent s
      → get conn s.viewer_loops ≡ some (id, agent)
      → IsConsistent (viewer_input_round services call conn id agent frame s)
  unfolding viewer_input_round viewer_disconnect
  viewer_round-IsConsistent s conn id agent none w loop =
      disconnect_viewer-IsBroker w conn id agent loop
  viewer_round-IsConsistent s conn id agent (some f) w loop =
      if_rule IsConsistent (f.opcode == op_close) _ _
        (λ _. disconnect_viewer-IsBroker w conn id agent loop)
        λ _. if_rule IsConsistent (not (f.opcode == op_text)) _ _ (λ _. w) λ _. forward f.payload
    where
      forward : (payload : Bytes) → IsConsistent (forward_input services call agent payload s)
      forward payload =
          unfold forward_input in
          option_rule IsConsistent (services.decode_message payload) _ _ w λ m.
            if_rule IsConsistent
              (text_eq m.kind (codes "input") || text_eq m.kind (codes "switch_display")) _ _
              (λ _. w) λ _. w

  pub viewer_opens-IsConsistent :
      (s : Server S) (conn : ℕ) (outcome : Hijack) (r : Request)
      → IsConsistent s
      → get conn s.viewer_loops ≡ none
      → IsConsistent (handle_viewer services call conn outcome r s).1
  viewer_opens-IsConsistent s conn outcome r w fresh =
      elim (handle_viewer-ViewerAdmission services call conn outcome r s) [
        | Viewers.turned_away _ same ↦ rw same w
        | Viewers.joined agent _ here same ↦ rw same (
            connect_viewer-IsConsistent _ conn _ agent w fresh
              (w.served agent _ (w.registered _ agent here)))
      ]
