-- ===== src/Client/Tracked.antt =====
-- cmd/agent/capture.go: the channels that the capture goroutines wait for.
use rmm.Base.{
  ℕ, ◌≡◌, ◌⊎◌, refl, sym, List, [], ◌∷◌, ◌++◌, Bytes, codes, text_eq, ◌==◌, ◌||◌, not,
  if◌then◌else◌, Bool, true, false, Option, none, some, arith, inl, inr, if_rule, option_rule, All,
  All-append,
}
use rmm.Base.Int.{lt_ℕ, above}
use rmm.Protocol.Frame.{Frame, op_text, op_close, op_ping}
use rmm.Protocol.Message.{Message}
use rmm.Client.State.{System, Agent, Capture, entering, waiting, register}
use rmm.Client.Capture.{
  is_closed, start_capture, close_channel, stop_capture_loop, handle_switch_display, Turn, enters,
  stops, ticks, is_ready, capture_turn, after_turn, capture_ticks,
}
use rmm.Client.Loop.{
  Round, continues, returns, panics, or_panics, handle_input, open_run, dispatch, run_round,
}

-- A goroutine finds a channel at its next select; the one that it waits for is the agent's, or closed.
abbrev pub Knows : Option ℕ → List ℕ → Capture → Type 0
Knows stop closed entering = (c : ℕ) × (stop ≡ some c)
Knows stop closed (waiting w) =
    ((d : ℕ) × (stop ≡ some d))
    × ((c : ℕ) × (w ≡ some c) × ((is_closed c closed ≡ true) ⊎ (stop ≡ some c)))

-- When no capture runs the agent's channel is closed.
pub record Tracks (capturing : Bool) (stop : Option ℕ) (closed : List ℕ) (captures : List Capture)
    : Type 0 where
  pub shut : capturing ≡ false → (c : ℕ) → stop ≡ some c → is_closed c closed ≡ true
  pub known : All (Knows stop closed) captures

abbrev pub IsTracked : Agent → Type 0
IsTracked a = Tracks a.capturing a.stop_capture a.closed a.captures

-- The agent of a round, unless it panics.
abbrev pub Tracked : Round → Type 0
Tracked (continues a) = IsTracked a
Tracked (returns a) = IsTracked a
Tracked panics = Unit {0}

same_channel : {c d : ℕ} {o : Option ℕ} → o ≡ some c → o ≡ some d → d ≡ c
same_channel e h = cc

same_list : {xs ys : List Capture} → some xs ≡ some ys → xs ≡ ys
same_list e = cc

-- A new channel is made where the old one is closed.
All-started :
    (n : ℕ) (stop : Option ℕ) (closed : List ℕ) (captures : List Capture)
    → ((c : ℕ) → stop ≡ some c → is_closed c closed ≡ true)
    → All (Knows stop closed) captures
    → All (Knows (some n) closed) captures
All-started n stop closed [] shut h = tt
All-started n stop closed (entering ∷ rest) shut (h, hs) =
    ((n, refl), All-started n stop closed rest shut hs)
All-started n stop closed (waiting w ∷ rest) shut ((_, (c, e, inl h)), hs) =
    (((n, refl), (c, e, inl h)), All-started n stop closed rest shut hs)
All-started n stop closed (waiting w ∷ rest) shut ((_, (c, e, inr h)), hs) =
    (((n, refl), (c, e, inl (shut c h))), All-started n stop closed rest shut hs)

-- A further channel is closed.
All-closed :
    (d : ℕ) (stop : Option ℕ) (closed : List ℕ) (captures : List Capture)
    → All (Knows stop closed) captures
    → All (Knows stop (d ∷ closed)) captures
unfolding is_closed
All-closed d stop closed [] h = tt
All-closed d stop closed (entering ∷ rest) (h, hs) = (h, All-closed d stop closed rest hs)
All-closed d stop closed (waiting w ∷ rest) ((k, (c, e, inl h)), hs) =
    ((k, (c, e, inl (ground (arith, h)))), All-closed d stop closed rest hs)
All-closed d stop closed (waiting w ∷ rest) ((k, (c, e, inr h)), hs) =
    ((k, (c, e, inr h)), All-closed d stop closed rest hs)

start_capture-IsTracked : (a : Agent) → IsTracked a → IsTracked (start_capture a)
unfolding start_capture
start_capture-IsTracked a w =
    if_rule IsTracked a.capturing _ _ (λ _. w)
      λ off. record {
        shut = λ e. absurd (cc);
        known = (
          (a.next_channel, refl),
          All-started a.next_channel a.stop_capture a.closed a.captures (w.shut off) w.known,
        );
      }

stop_capture-Tracked : (a : Agent) → IsTracked a → Tracked (or_panics (stop_capture_loop a))
unfolding stop_capture_loop close_channel is_closed
stop_capture-Tracked a w =
    let P : Option Agent → Type 0 = λ o. Tracked (or_panics o) in
    if_rule P a.capturing _ _ (λ _. from a.stop_capture refl) (λ _. w)
  where
    from :
        (o : Option ℕ)
        → a.stop_capture ≡ o
        → Tracked (or_panics (elim o [ none ↦ some a | some c ↦ close_channel c a ]))
    from none e = w
    from (some c) e =
        if_rule (λ (o : Option Agent). Tracked (or_panics o)) (is_closed c a.closed) _ _ (λ _. tt)
          λ _. record {
            shut = λ _ d h. ground (arith, same_channel e h);
            known = All-closed c a.stop_capture a.closed a.captures w.known;
          }

module _ (system : System) where
  handle_input-IsTracked :
      (a : Agent) (payload : Bytes) → IsTracked a → IsTracked (handle_input system payload a)
  unfolding handle_input
  handle_input-IsTracked a payload w =
      option_rule IsTracked (system.decode_input payload) _ _ w λ input.
        if_rule IsTracked (text_eq input.kind (codes "mouse")) _ _ (λ _. w)
          λ _.
            if_rule IsTracked (text_eq input.kind (codes "key")) _ _
              (λ _. if_rule IsTracked (text_eq input.action (codes "down")) _ _ (λ _. w) (λ _. w))
              (λ _. w)

  switch_display-IsTracked :
      (a : Agent) (payload : Bytes)
      → IsTracked a
      → IsTracked (handle_switch_display system payload a)
  unfolding handle_switch_display
  switch_display-IsTracked a payload w =
      option_rule IsTracked (system.decode_display payload) _ _ w λ display.
        if_rule IsTracked (lt_ℕ display 1 || above display system.display_count) _ _ (λ _. w)
          (λ _. w)

  dispatch-Tracked : (m : Message) (a : Agent) → IsTracked a → Tracked (dispatch system m a)
  unfolding dispatch
  dispatch-Tracked m a w =
      if_rule Tracked (text_eq m.kind (codes "start_capture")) _ _
        (λ _. start_capture-IsTracked a w)
        λ _.
          if_rule Tracked (text_eq m.kind (codes "stop_capture")) _ _
            (λ _. stop_capture-Tracked a w)
            λ _.
              if_rule Tracked (text_eq m.kind (codes "input")) _ _
                (λ _. handle_input-IsTracked a m.payload w)
                λ _.
                  if_rule Tracked (text_eq m.kind (codes "switch_display")) _ _
                    (λ _. switch_display-IsTracked a m.payload w) λ _. w

  pub round-Tracked :
      (frame : Option Frame) (a : Agent) → IsTracked a → Tracked (run_round system frame a)
  unfolding run_round
  round-Tracked none a w = w
  round-Tracked (some f) a w =
      if_rule Tracked (f.opcode == op_close) _ _ (λ _. w)
        λ _.
          if_rule Tracked (f.opcode == op_ping) _ _ (λ _. w)
            λ _.
              if_rule Tracked (f.opcode == op_text) _ _
                (λ _.
                  option_rule Tracked (system.decode_message f.payload) _ _ w
                    (λ m. dispatch-Tracked m a w))
                (λ _. w)

  pub open_run-Tracked :
      (written : Bool) (response : Option Frame) (a : Agent)
      → IsTracked a
      → Tracked (open_run system written response a)
  unfolding open_run register
  open_run-Tracked written response a w =
      if_rule Tracked (not written) _ _ (λ _. w)
        λ _. option_rule Tracked response _ _ w λ f.
          if_rule Tracked (not (f.opcode == op_text)) _ _ (λ _. w)
            λ _.
              option_rule Tracked (system.decode_message f.payload) _ _ w λ m.
                if_rule Tracked (not (text_eq m.kind (codes "registered"))) _ _ (λ _. w) (λ _. w)

module _ (P : Capture → Type 0) where
  pub All-before : (xs ys : List Capture) → All P (xs ++ ys) → All P xs × All P ys
  All-before [] ys h = (tt, h)
  All-before (x ∷ xs) ys (hx, h) = (let (l, r) = All-before xs ys h in ((hx, l), r))

-- What is left of a goroutine knows its channel.
turn-Knows :
    (t : Turn) (g : Capture) (a : Agent) (gs : List Capture)
    → capture_turn t g a ≡ some gs
    → Knows a.stop_capture a.closed g
    → All (Knows a.stop_capture a.closed) gs
unfolding capture_turn
turn-Knows enters entering a gs e (c, h) = rw (sym (same_list e)) (((c, h), (c, h, inr h)), tt)
turn-Knows stops (waiting w) a gs e k = rw (sym (stopped (is_ready w a) e)) tt
  where
    stopped :
        (b : Bool)
        → ◌≡◌ {A = Option (List Capture)} (if b then some [] else none) (some gs)
        → [] ≡ gs
    stopped true h = same_list h
    stopped false h = absurd (cc)
turn-Knows (ticks image) (waiting w) a gs e (k, _) = rw (sym (same_list e)) (k, tt)
turn-Knows enters (waiting w) a gs e k = absurd (cc)
turn-Knows stops entering a gs e k = absurd (cc)
turn-Knows (ticks image) entering a gs e k = absurd (cc)

after_turn-same :
    (t : Turn) (a : Agent)
    → let b = after_turn t a in
      (b.capturing ≡ a.capturing) × (b.stop_capture ≡ a.stop_capture) × (b.closed ≡ a.closed)
unfolding after_turn capture_ticks
after_turn-same enters a = (refl, refl, refl)
after_turn-same stops a = (refl, refl, refl)
after_turn-same (ticks none) a = (refl, refl, refl)
after_turn-same (ticks (some image)) a = (refl, refl, refl)

pub turn-IsTracked :
    (t : Turn) (g : Capture) (before after gs : List Capture) (a : Agent)
    → a.captures ≡ before ++ (g ∷ after)
    → capture_turn t g a ≡ some gs
    → IsTracked a
    → IsTracked (record (after_turn t a) { captures = before ++ (gs ++ after) })
turn-IsTracked t g before after gs a split e w =
    let P = Knows a.stop_capture a.closed in
    let (front, (k, back)) = All-before P before (g ∷ after) (rw split at w.known) in
    let all =
      All-append P before (gs ++ after) front
        (All-append P gs after (turn-Knows t g a gs e k) back) in
    let (c, s, d) = after_turn-same t a in rw (c, s, d) (record { shut = w.shut; known = all })
