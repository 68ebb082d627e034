-- ===== src/Client/Running.antt =====
-- cmd/agent: the agent over its connections, its captures interleaved with its messages.
use rmm.Base.{
  Bool, ℕ, ◌≤◌, ◌≡◌, ◌≢◌, ◌⊎◌, refl, ap, List, [], ◌∷◌, ◌++◌, Bytes, true, false, Option, none,
  some, arith, Bool-cases, inl, inr,
}
use rmm.Protocol.Frame.{Frame}
use rmm.Client.State.{System, Agent, Capture, entering, waiting, new_agent}
use rmm.Client.Capture.{
  is_closed, start_capture, close_channel, stop_capture_loop, capture_ticks, Turn, enters, stops,
  ticks, is_ready, capture_turn, after_turn,
}
use rmm.Client.Loop.{Round, continues, returns, panics, open_run, run_round, heartbeat}
use rmm.Client.Tracked.{IsTracked, Tracked, round-Tracked, open_run-Tracked, turn-IsTracked}
use rmm.Client.Sound.{IsSound, RoundEnds, round-IsSound, open_run-IsSound}

module _ (system : System) where
  -- One step of the agent: a connection opens, a message is handled, a capture goroutine takes a turn,
  -- or the heartbeat is sent. A round that panics has no next agent.
  pub data Step (a : Agent) : Agent → Type 0 where
    opens :
        (written : Bool) (response : Option Frame) (a' : Agent)
        → (open_run system written response a ≡ continues a')
          ⊎ (open_run system written response a ≡ returns a')
        → Step a a'
    receives :
        (frame : Option Frame) (a' : Agent)
        → (run_round system frame a ≡ continues a') ⊎ (run_round system frame a ≡ returns a')
        → Step a a'
    takes :
        (t : Turn) (g : Capture) (before after gs : List Capture)
        → a.captures ≡ before ++ (g ∷ after)
        → capture_turn t g a ≡ some gs
        → Step a (record (after_turn t a) { captures = before ++ (gs ++ after) })
    beats : Step a (heartbeat system a)

  pub data Reachable (name credential : Bytes) : Agent → Type 0 where
    starts : Reachable name credential (new_agent name credential)
    steps : {a a' : Agent} → Reachable name credential a → Step a a' → Reachable name credential a'

  ended :
      (P : Agent → Type 0) (r : Round) (a : Agent)
      → (r ≡ continues a) ⊎ (r ≡ returns a)
      → RoundEnds P r
      → P a
  ended P r a (inl e) h = rw e at h
  ended P r a (inr e) h = rw e at h

  turn-IsSound :
      (t : Turn) (gs : List Capture) (a : Agent)
      → IsSound system a
      → IsSound system (record (after_turn t a) { captures = gs })
  unfolding after_turn capture_ticks
  turn-IsSound enters gs a w = w
  turn-IsSound stops gs a w = w
  turn-IsSound (ticks none) gs a w = w
  turn-IsSound (ticks (some image)) gs a w = w

  Step-IsSound :
      (a a' : Agent) → 1 ≤ system.display_count → Step a a' → IsSound system a → IsSound system a'
  unfolding heartbeat
  Step-IsSound a a' displays (opens written response _ e) w =
      ended (IsSound system) _ a' e (open_run-IsSound system written response a displays w)
  Step-IsSound a a' displays (receives frame _ e) w =
      ended (IsSound system) _ a' e (round-IsSound system frame a w)
  Step-IsSound a _ displays (takes t g before after gs _ _) w =
      turn-IsSound t (before ++ (gs ++ after)) a w
  Step-IsSound a _ displays beats w = w

  pub Reachable-IsSound :
      (name credential : Bytes) (a : Agent)
      → 1 ≤ system.display_count
      → Reachable name credential a
      → IsSound system a
  unfolding new_agent is_closed
  Reachable-IsSound name credential _ displays starts = record {
    old = λ c e. absurd (cc);
    made = λ c e. absurd (cc);
    is_open = λ e. absurd (cc);
    shown = ground arith;
  }
  Reachable-IsSound name credential a displays (steps before step) =
      Step-IsSound _ a displays step (Reachable-IsSound name credential _ displays before)

  -- Over any connections, messages and turns of the capture goroutines, no frame makes the agent close a
  -- closed channel, a running capture has an open channel, and no display beyond the last is shown.
  pub Reachable-ne-panics :
      (name credential : Bytes) (a : Agent)
      → 1 ≤ system.display_count
      → Reachable name credential a
      → IsSound system a × ((frame : Option Frame) → run_round system frame a ≢ panics)
  Reachable-ne-panics name credential a displays reached =
      let w = Reachable-IsSound name credential a displays reached in
      (w, λ frame e. rw e at (round-IsSound system frame a w))

  tracked : (r : Round) (a : Agent) → (r ≡ continues a) ⊎ (r ≡ returns a) → Tracked r → IsTracked a
  tracked r a (inl e) h = rw e at h
  tracked r a (inr e) h = rw e at h

  Step-IsTracked : (a a' : Agent) → Step a a' → IsTracked a → IsTracked a'
  unfolding heartbeat
  Step-IsTracked a a' (opens written response _ e) w =
      tracked _ a' e (open_run-Tracked system written response a w)
  Step-IsTracked a a' (receives frame _ e) w = tracked _ a' e (round-Tracked system frame a w)
  Step-IsTracked a _ (takes t g before after gs split e) w =
      turn-IsTracked t g before after gs a split e w
  Step-IsTracked a _ beats w = w

  pub Reachable-IsTracked :
      (name credential : Bytes) (a : Agent) → Reachable name credential a → IsTracked a
  unfolding new_agent
  Reachable-IsTracked name credential _ starts = record { shut = λ _ c e. absurd (cc); known = tt }
  Reachable-IsTracked name credential a (steps before step) =
      Step-IsTracked _ a step (Reachable-IsTracked name credential _ before)

  unmade :
      (a : Agent) → IsSound system a → (c : ℕ) → a.next_channel ≤ c → is_closed c a.closed ≡ false
  unmade a w c above = elim (Bool-cases (is_closed c a.closed)) [
    | inl closed ↦ absurd (omega (arith, w.old c closed))
    | inr opened ↦ opened
  ]

  -- When captures are stopped and started again, with no turn between, a goroutine that is on its way to
  -- its select, with a picture or since it was just made, goes on beside the new one: both enter with the
  -- new channel, which is open, so that neither can stop. One that waits in its select can.
  pub capture_restart :
      (a : Agent) (before after : List Capture)
      → IsSound system a
      → a.capturing ≡ true
      → a.captures ≡ before ++ (entering ∷ after)
      → (old : ℕ) × (new : ℕ) × (a' : Agent) × (a.stop_capture ≡ some old)
        × (stop_capture_loop a ≡ some a')
        × let b = start_capture a' in
          (b.captures ≡ entering ∷ (before ++ (entering ∷ after)))
          × (capture_turn enters entering b ≡ some (waiting (some new) ∷ []))
          × (capture_turn stops (waiting (some new)) b ≡ none)
          × (capture_turn stops (waiting (some old)) b ≡ some [])
  unfolding stop_capture_loop start_capture close_channel capture_turn is_ready is_closed
  capture_restart a before after w on split =
      let (old, current, opened) = w.is_open on in
      let n = a.next_channel in
      let a' : Agent = record a { closed = old ∷ a.closed; capturing = false } in
      let fresh = unmade a w n (omega arith) in
      let made = w.made old current in
      (
        old,
        n,
        a',
        current,
        ground (arith, on, current, opened),
        (ap (λ l. entering ∷ l) split, refl, ground (arith, fresh, made), ground arith),
      )
