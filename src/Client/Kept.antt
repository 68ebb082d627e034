-- ===== src/Client/Kept.antt =====
-- cmd/agent/agent.go: no round of run changes the credential of the agent.
use rmm.Base.{
  ◌≡◌, ◌≤◌, Bytes, codes, text_eq, ◌==◌, not, Bool, Option, none, some, arith, if_rule, option_rule,
}
use rmm.Protocol.Frame.{Frame, op_text, op_close, op_ping}
use rmm.Protocol.Message.{Message}
use rmm.Client.State.{System, Agent, register}
use rmm.Client.Capture.{
  is_closed, start_capture, close_channel, stop_capture_loop, handle_switch_display,
}
use rmm.Client.Loop.{
  Round, continues, returns, panics, or_panics, handle_input, open_run, dispatch, run_round,
}
use rmm.Client.Sound.{IsSound, RoundEnds, round-IsSound, open_run-IsSound}

-- The agent of a round, unless it panics, has this credential.
abbrev pub Keeps : Bytes → Round → Type 0
Keeps credential (continues a) = a.credential ≡ credential
Keeps credential (returns a) = a.credential ≡ credential
Keeps credential panics = Unit {0}

module _ (system : System) (credential : Bytes) where
  abbrev Has : Agent → Type 0
  Has a = a.credential ≡ credential

  stop_capture-Keeps : (a : Agent) → Has a → Keeps credential (or_panics (stop_capture_loop a))
  unfolding stop_capture_loop close_channel
  stop_capture-Keeps a w =
      if_rule (λ o. Keeps credential (or_panics o)) a.capturing _ _
        (λ _.
          option_rule (λ o. Keeps credential (or_panics o)) a.stop_capture _ _ w
            λ c.
              if_rule (λ o. Keeps credential (or_panics o)) (is_closed c a.closed) _ _ (λ _. tt)
                (λ _. w))
        (λ _. w)

  handle_input-Has : (a : Agent) (payload : Bytes) → Has a → Has (handle_input system payload a)
  unfolding handle_input
  handle_input-Has a payload w =
      option_rule Has (system.decode_input payload) _ _ w λ input. ground (arith, w)

  switch_display-Has :
      (a : Agent) (payload : Bytes) → Has a → Has (handle_switch_display system payload a)
  unfolding handle_switch_display
  switch_display-Has a payload w =
      option_rule Has (system.decode_display payload) _ _ w λ display. ground (arith, w)

  start_capture-Has : (a : Agent) → Has a → Has (start_capture a)
  unfolding start_capture
  start_capture-Has a w = ground (arith, w)

  dispatch-Keeps : (m : Message) (a : Agent) → Has a → Keeps credential (dispatch system m a)
  unfolding dispatch
  dispatch-Keeps m a w =
      let P = Keeps credential in
      if_rule P (text_eq m.kind (codes "start_capture")) _ _ (λ _. start_capture-Has a w)
        λ _.
          if_rule P (text_eq m.kind (codes "stop_capture")) _ _ (λ _. stop_capture-Keeps a w)
            λ _.
              if_rule P (text_eq m.kind (codes "input")) _ _ (λ _. handle_input-Has a m.payload w)
                λ _.
                  if_rule P (text_eq m.kind (codes "switch_display")) _ _
                    (λ _. switch_display-Has a m.payload w) λ _. w

  round-Keeps :
      (frame : Option Frame) (a : Agent) → Has a → Keeps credential (run_round system frame a)
  unfolding run_round
  round-Keeps none a w = w
  round-Keeps (some f) a w =
      let P = Keeps credential in
      if_rule P (f.opcode == op_close) _ _ (λ _. w)
        λ _.
          if_rule P (f.opcode == op_ping) _ _ (λ _. w)
            λ _.
              if_rule P (f.opcode == op_text) _ _
                (λ _.
                  option_rule P (system.decode_message f.payload) _ _ w (λ m. dispatch-Keeps m a w))
                (λ _. w)

  open_run-Keeps :
      (written : Bool) (response : Option Frame) (a : Agent)
      → Has a
      → Keeps credential (open_run system written response a)
  unfolding open_run register
  open_run-Keeps written response a w =
      let P = Keeps credential in
      if_rule P (not written) _ _ (λ _. w)
        λ _. option_rule P response _ _ w λ f.
          if_rule P (not (f.opcode == op_text)) _ _ (λ _. w)
            λ _.
              option_rule P (system.decode_message f.payload) _ _ w
                λ m. if_rule P (not (text_eq m.kind (codes "registered"))) _ _ (λ _. w) (λ _. w)

  -- An agent in order, with the credential that it started with.
  abbrev pub IsKept : Agent → Type 0
  IsKept a = IsSound system a × (a.credential ≡ credential)

  both : (r : Round) → RoundEnds (IsSound system) r → Keeps credential r → RoundEnds IsKept r
  both (continues a) w k = (w, k)
  both (returns a) w k = (w, k)
  both panics w k = w

  pub round-IsKept :
      (frame : Option Frame) (a : Agent) → IsKept a → RoundEnds IsKept (run_round system frame a)
  round-IsKept frame a (w, k) = both _ (round-IsSound system frame a w) (round-Keeps frame a k)

  pub open_run-IsKept :
      (written : Bool) (response : Option Frame) (a : Agent)
      → 1 ≤ system.display_count
      → IsKept a
      → RoundEnds IsKept (open_run system written response a)
  open_run-IsKept written response a displays (w, k) =
      both _ (open_run-IsSound system written response a displays w)
        (open_run-Keeps written response a k)
