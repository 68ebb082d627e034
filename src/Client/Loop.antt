-- ===== src/Client/Loop.antt =====
-- cmd/agent/agent.go: run, and cmd/agent/input.go: handleInput up to the injectors. A round of the
-- message loop is one step.
use rmm.Base.{Bool, [], ◌∷◌, Bytes, codes, ◌==◌, text_eq, if◌then◌else◌, not, Option, none, some}
use rmm.Protocol.Frame.{Frame, op_text, op_close, op_ping, op_pong}
use rmm.Protocol.Message.{Message}
use rmm.Client.State.{System, Agent, mouse, key, register, send_message}
use rmm.Client.Capture.{start_capture, stop_capture_loop, handle_switch_display}

-- Only a key that goes down is injected.
unfoldable pub handle_input : System → Bytes → Agent → Agent
handle_input system payload a = elim (system.decode_input payload) [
  | none ↦ a
  | some input ↦
      if text_eq input.kind (codes "mouse")
      then record a { injected = mouse input.action input.x input.y input.button ∷ a.injected }
      else if text_eq input.kind (codes "key")
      then if text_eq input.action (codes "down")
        then record a { injected = key input.key input.code ∷ a.injected }
        else a
      else a
]

-- What a round of `run` ends in: the next round, a return, or a run-time panic.
pub data Round : Type 0 where
  continues : Agent → Round
  returns : Agent → Round
  panics : Round

abbrev pub or_panics : Option Agent → Round
or_panics none = panics
or_panics (some a) = continues a

-- From the dial to the confirmation. `written` tells whether the registration could be written, and a
-- response that is none is an error of ReadFrame.
unfoldable pub open_run : System → Bool → Option Frame → Agent → Round
open_run system written response a =
    let a₁ = register system a in
    if not written then returns a₁ else elim response [
      | none ↦ returns a₁
      | some f ↦
          if not (f.opcode == op_text) then returns a₁ else elim (system.decode_message f.payload) [
            | none ↦ returns a₁
            | some m ↦
                if not (text_eq m.kind (codes "registered")) then returns a₁ else continues a₁
          ]
    ]

unfoldable pub dispatch : System → Message → Agent → Round
dispatch system m a =
    if text_eq m.kind (codes "start_capture")
    then continues (start_capture a)
    else if text_eq m.kind (codes "stop_capture")
    then or_panics (stop_capture_loop a)
    else if text_eq m.kind (codes "input")
    then continues (handle_input system m.payload a)
    else if text_eq m.kind (codes "switch_display")
    then continues (handle_switch_display system m.payload a)
    else continues a

unfoldable pub run_round : System → Option Frame → Agent → Round
run_round system none a = returns a
run_round system (some f) a =
    if f.opcode == op_close
    then returns a
    else if f.opcode == op_ping
    then continues (record a { sent = record { opcode = op_pong; payload = f.payload } ∷ a.sent })
    else if f.opcode == op_text
    then elim (system.decode_message f.payload) [
      | none ↦ continues a
      | some m ↦ dispatch system m a
    ]
    else continues a

-- One tick of the heartbeat goroutine.
unfoldable pub heartbeat : System → Agent → Agent
heartbeat system a = send_message system (record { kind = codes "heartbeat"; payload = [] }) a
