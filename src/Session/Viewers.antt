-- ===== src/Session/Viewers.antt =====
-- cmd/server/handler_viewer.go and cmd/agent/agent.go: what a frame of a viewer makes the agent do.
use rmm.Base.{ℕ, ◌≡◌, ◌∷◌, codes, Option, some}
use rmm.Protocol.Frame.{Frame, op_text, op_close}
use rmm.Protocol.Message.{Message}
use rmm.Server.State.{Services, Server}
use rmm.Server.Relay.{IsIgnored}
use rmm.Client.State.{System, Agent}
use rmm.Client.Capture.{handle_switch_display, stop_capture_loop}
use rmm.Client.Loop.{continues, or_panics, handle_input, run_round}

module _ {S : Type 0} (services : Services S) (system : System) where
  -- What the agent does with the frame that the server sends it in a round of a viewer, if any.
  pub data ViewerEffect (agent : ℕ) (frame : Option Frame) (s s' : Server S) (a : Agent)
      : Type 0 where
    nothing :
        (f : Frame)
        → frame ≡ some f
        → IsIgnored services f
        → s'.sent ≡ s.sent
        → ViewerEffect agent frame s s' a
    injects :
        (f : Frame) (m : Message)
        → frame ≡ some f
        → f.opcode ≡ op_text
        → s'.sent ≡ (agent, f) ∷ s.sent
        → services.decode_message f.payload ≡ some m
        → m.kind ≡ codes "input"
        → run_round system (some f) a ≡ continues (handle_input system m.payload a)
        → ViewerEffect agent frame s s' a
    switches :
        (f : Frame) (m : Message)
        → frame ≡ some f
        → f.opcode ≡ op_text
        → s'.sent ≡ (agent, f) ∷ s.sent
        → services.decode_message f.payload ≡ some m
        → m.kind ≡ codes "switch_display"
        → run_round system (some f) a ≡ continues (handle_switch_display system m.payload a)
        → ViewerEffect agent frame s s' a
    stops :
        (f : Frame)
        → ((g : Frame) → frame ≡ some g → g.opcode ≡ op_close)
        → s'.sent ≡ (agent, f) ∷ s.sent
        → run_round system (some f) a ≡ or_panics (stop_capture_loop a)
        → ViewerEffect agent frame s s' a
