-- ===== src/Session/Picture.antt =====
-- cmd/server and cmd/agent: from a registration and a viewer to the first picture on the screen of the viewer.
use rmm.Base.{
  ℕ, ◌≡◌, ◌≢◌, refl, ap, sym, ◌∙◌, [], ◌∷◌, Bytes, codes, Option, none, some, true, false, ◌≤◌,
  arith, text_eq, inl,
}
use rmm.Base.Map.{get, bytes_eq, get-put_same}
use rmm.Protocol.Frame.{Frame, op_text, op_binary, bin_screen}
use rmm.Protocol.Message.{Message, Registration}
use rmm.Store.{Call, AgentRecord}
use rmm.Server.State.{Services, Server}
use rmm.Server.Agent.{register_agent, registered, agent_message_round}
use rmm.Server.Viewer.{connect_viewer, bare}
use rmm.Server.Relay.{AgentTraffic, agent_round-AgentTraffic}
use rmm.Client.State.{System, Agent, entering, waiting, register}
use rmm.Client.Capture.{
  start_capture, capture_ticks, is_closed, capture_turn, after_turn, enters, ticks,
}
use rmm.Client.Sound.{IsSound, start_capture-IsSound, open_run-IsSound}
use rmm.Client.Loop.{continues, open_run, dispatch, run_round}

module _ {S : Type 0} (services : Services S) (system : System) where
  abbrev text_frame : Bytes → Frame
  text_frame payload = record { opcode = op_text; payload = payload }

  -- A registered agent that a viewer is connected to, and the picture that it sends.
  pub record Picture (call later last : Call) (conn viewer : ℕ) (ip : Bytes)
      (enrolled : AgentRecord) (reg : Registration) (s : Server S) (a : Agent) (image : Bytes)
      : Type 0 where
    pub confirmed : Frame
    pub order : Frame
    pub picture : Frame
    pub ready : Agent
    pub agent : Agent
    pub written :
        let s₁ = register_agent services call conn ip enrolled reg s in
        (connect_viewer services later viewer enrolled.id conn s₁).sent
        ≡ (conn, order) ∷ (conn, confirmed) ∷ s.sent
    pub opened : open_run system true (some confirmed) a ≡ continues ready
    pub ordered : run_round system (some order) ready ≡ continues agent
    pub is_capturing : agent.capturing ≡ true
    pub channel : ℕ
    pub waits_for : agent.stop_capture ≡ some channel
    pub is_open : is_closed channel agent.closed ≡ false
    pub made : agent.captures ≡ entering ∷ a.captures
    pub enters_select : capture_turn enters entering agent ≡ some (waiting (some channel) ∷ [])
    pub takes_picture :
        capture_turn (ticks (some image)) (waiting (some channel)) agent ≡ some (entering ∷ [])
    pub is_screen : picture ≡ record { opcode = op_binary; payload = bin_screen ∷ image }
    pub taken : (after_turn (ticks (some image)) agent).sent ≡ picture ∷ agent.sent
    pub shown :
        let s₁ = register_agent services call conn ip enrolled reg s in
        let s₂ = connect_viewer services later viewer enrolled.id conn s₁ in
        (agent_message_round services last conn enrolled.id (some picture) s₂).sent
        ≡ (viewer, picture) ∷ s₂.sent

  open_run-registered :
      (payload : Bytes) (m : Message) (a : Agent)
      → system.decode_message payload ≡ some m
      → m.kind ≡ codes "registered"
      → open_run system true (some (record { opcode = op_text; payload = payload })) a
        ≡ continues (register system a)
  unfolding open_run text_eq
  open_run-registered payload m a decoded kind = rw (decoded, kind, open_run) refl

  run_round-start_capture :
      (payload : Bytes) (m : Message) (a : Agent)
      → system.decode_message payload ≡ some m
      → m.kind ≡ codes "start_capture"
      → run_round system (some (record { opcode = op_text; payload = payload })) a
        ≡ continues (start_capture a)
  unfolding run_round dispatch text_eq
  run_round-start_capture payload m a decoded kind = rw (decoded, run_round, kind, dispatch) refl

  started :
      (a : Agent)
      → a.capturing ≡ false
      → ((start_capture a).capturing ≡ true) × ((start_capture a).captures ≡ entering ∷ a.captures)
  unfolding start_capture
  started a off = (ground (arith, off), ground (arith, off))

  register-same :
      (a : Agent)
      → ((register system a).capturing ≡ a.capturing) × ((register system a).captures ≡ a.captures)
  unfolding register
  register-same a = (refl, refl)

  register-IsSound :
      (a : Agent) → 1 ≤ system.display_count → IsSound system a → IsSound system (register system a)
  unfolding open_run
  register-IsSound a displays w = open_run-IsSound system false none a displays w

  relayed_to :
      (last : Call) (conn viewer : ℕ) (id : Bytes) (f : Frame) (s : Server S)
      → f.opcode ≡ op_binary
      → get id s.viewers ≡ some viewer
      → (agent_message_round services last conn id (some f) s).sent ≡ (viewer, f) ∷ s.sent
  relayed_to last conn viewer id f s binary connected =
      elim (agent_round-AgentTraffic services last conn id f s) [
        | AgentTraffic.silent dropped _ _ ↦ absurd (clash (sym (dropped (inl binary)) ∙ connected))
        | AgentTraffic.answered ping _ ↦ absurd (ground arith)
        | AgentTraffic.relayed other _ found sent ↦
            sent ∙ ap (λ v. (v, f) ∷ s.sent) (same (sym found ∙ connected))
      ]
    where
      clash : ◌≢◌ {A = Option ℕ} none (some viewer)
      clash e = cc

      same : {v w : ℕ} → some v ≡ some w → v ≡ w
      same e = cc

  -- When an agent that does not capture, whose captures and display are in order, is registered and a
  -- viewer is connected to it, the agent that decodes the two messages of the server ends its
  -- registration and starts a goroutine, which enters its select with an open channel. The picture that
  -- it takes at a tick is sent as a binary frame behind the type of a screen, and the server writes this
  -- frame to the viewer.
  pub connect_viewer-Picture :
      (call later last : Call) (conn viewer : ℕ) (ip : Bytes) (enrolled : AgentRecord)
      (reg : Registration) (s : Server S) (a : Agent) (image : Bytes) (confirmation order : Message)
      → system.decode_message (registered services enrolled.id) ≡ some confirmation
      → confirmation.kind ≡ codes "registered"
      → system.decode_message (bare services (codes "start_capture")) ≡ some order
      → order.kind ≡ codes "start_capture"
      → 1 ≤ system.display_count
      → IsSound system a
      → a.capturing ≡ false
      → Picture call later last conn viewer ip enrolled reg s a image
  unfolding register_agent connect_viewer capture_turn after_turn capture_ticks
  connect_viewer-Picture call later last conn viewer ip enrolled reg s a image confirmation order
        decoded kind decoded_order order_kind displays w off =
      let (same, same_captures) = register-same a in
      let (on, made) = started (register system a) (same ∙ off) in
      let sound =
        start_capture-IsSound system (register system a) (register-IsSound a displays w) in
      let (channel, waits_for, is_open) = sound.is_open on in
      record {
        confirmed = text_frame (registered services enrolled.id);
        order = text_frame (bare services (codes "start_capture"));
        picture = record { opcode = op_binary; payload = bin_screen ∷ image };
        ready = register system a;
        agent = start_capture (register system a);
        written = refl;
        opened = open_run-registered _ confirmation a decoded kind;
        ordered = run_round-start_capture _ order (register system a) decoded_order order_kind;
        is_capturing = on;
        channel = channel;
        waits_for = waits_for;
        is_open = is_open;
        made = made ∙ ap (λ l. entering ∷ l) same_captures;
        enters_select = ap (λ c. some (waiting c ∷ [])) waits_for;
        takes_picture = refl;
        is_screen = refl;
        taken = refl;
        shown =
            relayed_to last conn viewer enrolled.id _ _ refl
              (get-put_same enrolled.id viewer s.viewers);
      }
