-- ===== src/Client/Sound.antt =====
-- cmd/agent: what the handlers of the agent keep true of its captures.
use rmm.Base.{
  ℕ, ◌<◌, ◌≤◌, ◌≡◌, refl, List, ◌∷◌, Bytes, codes, ◌==◌, text_eq, Bool, true, false, not, ◌||◌,
  Option, none, some, arith, Bool-cases, inl, inr, if_rule, option_rule,
}
use rmm.Base.Int.{ℤ, lt_ℕ, above}
use rmm.Protocol.Frame.{Frame, op_text, op_close, op_ping}
use rmm.Protocol.Message.{Message}
use rmm.Client.State.{System, Agent, register}
use rmm.Client.Capture.{
  is_closed, start_capture, close_channel, stop_capture_loop, handle_switch_display,
}
use rmm.Client.Loop.{
  Round, continues, returns, panics, or_panics, handle_input, open_run, dispatch, run_round,
}

-- Channels are made once, the channel of a running capture is open, and the display that is captured
-- is one of those that there are.
pub record IsCapture (display_count : ℕ) (capturing : Bool) (stop_capture : Option ℕ)
    (closed : List ℕ) (next_channel : ℕ) (current_display : ℤ) : Type 0 where
  pub old : (c : ℕ) → is_closed c closed ≡ true → c < next_channel
  pub made : (c : ℕ) → stop_capture ≡ some c → c < next_channel
  pub is_open : capturing ≡ true → (c : ℕ) × (stop_capture ≡ some c) × (is_closed c closed ≡ false)
  pub shown : above current_display display_count ≡ false

abbrev pub IsSound : System → Agent → Type 0
IsSound system a =
    IsCapture system.display_count a.capturing a.stop_capture a.closed a.next_channel
      a.current_display

-- The agent that a round goes on with, or ends with.
abbrev pub RoundEnds : (Agent → Type 0) → Round → Type 0
RoundEnds P (continues a) = P a
RoundEnds P (returns a) = P a
RoundEnds P panics = ⊥

module _ (system : System) where
  pub start_capture-IsSound : (a : Agent) → IsSound system a → IsSound system (start_capture a)
  unfolding start_capture
  start_capture-IsSound a w =
      if_rule (IsSound system) a.capturing _ _ (λ _. w)
        λ _. record {
          old = λ c e. omega (arith, w.old c e);
          made = λ c e. ground arith;
          is_open = λ _. (a.next_channel, refl, open_new (is_closed a.next_channel a.closed) refl);
          shown = w.shown;
        }
    where
      open_new :
          (b : Bool)
          → is_closed a.next_channel a.closed ≡ b
          → is_closed a.next_channel a.closed ≡ false
      open_new true e = absurd (ground (arith, w.old a.next_channel e))
      open_new false e = e

  close_channel-IsSound :
      (a : Agent) (c : ℕ)
      → IsSound system a
      → is_closed c a.closed ≡ false
      → a.stop_capture ≡ some c
      → (a' : Agent) × (close_channel c a ≡ some a') × IsSound system a'
  unfolding close_channel is_closed
  close_channel-IsSound a c w opened current = (
    record a { closed = c ∷ a.closed; capturing = false },
    rw opened refl,
    record {
      old = λ d e. ground (arith, w.old d, w.made c current);
      made = w.made;
      is_open = λ e. absurd (cc);
      shown = w.shown;
    },
  )

  pub stop_capture-IsSound :
      (a : Agent)
      → IsSound system a
      → (a' : Agent) × (stop_capture_loop a ≡ some a') × IsSound system a'
  unfolding stop_capture_loop
  stop_capture-IsSound a w = elim (Bool-cases a.capturing) [
    | inl on ↦
        let (c, current, opened) = w.is_open on in
        let (a', e, w') = close_channel-IsSound a c w opened current in (a', rw (on, current) e, w')
    | inr off ↦ (a, rw off refl, w)
  ]

  switch_display-IsSound :
      (a : Agent) (payload : Bytes)
      → IsSound system a
      → IsSound system (handle_switch_display system payload a)
  unfolding handle_switch_display
  switch_display-IsSound a payload w =
      option_rule (IsSound system) (system.decode_display payload) _ _ w λ display.
        if_rule (IsSound system) (lt_ℕ display 1 || above display system.display_count) _ _ (λ _. w)
          λ inside. record {
            old = w.old;
            made = w.made;
            is_open = w.is_open;
            shown = or_right _ _ inside;
          }
    where
      or_right : (b c : Bool) → b || c ≡ false → c ≡ false
      or_right true c e = absurd (cc)
      or_right false c e = e

  handle_input-IsSound :
      (a : Agent) (payload : Bytes)
      → IsSound system a
      → IsSound system (handle_input system payload a)
  unfolding handle_input
  handle_input-IsSound a payload w =
      option_rule (IsSound system) (system.decode_input payload) _ _ w λ input.
        if_rule (IsSound system) (text_eq input.kind (codes "mouse")) _ _ (λ _. w)
          λ _.
            if_rule (IsSound system) (text_eq input.kind (codes "key")) _ _
              (λ _.
                if_rule (IsSound system) (text_eq input.action (codes "down")) _ _ (λ _. w)
                  (λ _. w))
              (λ _. w)

  abbrev EndsSound : Round → Type 0
  EndsSound = RoundEnds (IsSound system)

  dispatch-IsSound : (m : Message) (a : Agent) → IsSound system a → EndsSound (dispatch system m a)
  unfolding dispatch
  dispatch-IsSound m a w =
      if_rule EndsSound (text_eq m.kind (codes "start_capture")) _ _
        (λ _. start_capture-IsSound a w)
        λ _.
          if_rule EndsSound (text_eq m.kind (codes "stop_capture")) _ _ (λ _. stopped)
            λ _.
              if_rule EndsSound (text_eq m.kind (codes "input")) _ _
                (λ _. handle_input-IsSound a m.payload w)
                λ _.
                  if_rule EndsSound (text_eq m.kind (codes "switch_display")) _ _
                    (λ _. switch_display-IsSound a m.payload w) λ _. w
    where
      stopped : EndsSound (or_panics (stop_capture_loop a))
      stopped = let (a', e, w') = stop_capture-IsSound a w in rw e w'

  pub round-IsSound :
      (frame : Option Frame) (a : Agent) → IsSound system a → EndsSound (run_round system frame a)
  unfolding run_round
  round-IsSound none a w = w
  round-IsSound (some f) a w =
      if_rule EndsSound (f.opcode == op_close) _ _ (λ _. w)
        λ _.
          if_rule EndsSound (f.opcode == op_ping) _ _ (λ _. w)
            λ _.
              if_rule EndsSound (f.opcode == op_text) _ _
                (λ _.
                  option_rule EndsSound (system.decode_message f.payload) _ _ w
                    (λ m. dispatch-IsSound m a w))
                (λ _. w)

  pub open_run-IsSound :
      (written : Bool) (response : Option Frame) (a : Agent)
      → 1 ≤ system.display_count
      → IsSound system a
      → EndsSound (open_run system written response a)
  unfolding open_run register
  open_run-IsSound written response a displays w =
      let w₁ : IsSound system (register system a) = record {
        old = w.old;
        made = w.made;
        is_open = w.is_open;
        shown = ground arith;
      } in
      if_rule EndsSound (not written) _ _ (λ _. w₁)
        λ _. option_rule EndsSound response _ _ w₁ λ f.
          if_rule EndsSound (not (f.opcode == op_text)) _ _ (λ _. w₁)
            λ _. option_rule EndsSound (system.decode_message f.payload) _ _ w₁ λ m.
              if_rule EndsSound (not (text_eq m.kind (codes "registered"))) _ _ (λ _. w₁) (λ _. w₁)
