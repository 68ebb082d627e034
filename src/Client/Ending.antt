-- ===== src/Client/Ending.antt =====
-- cmd/agent/capture.go: the captures that were stopped can end.
use rmm.Base.{ℕ, ◌≡◌, refl, true, List, [], ◌∷◌, ◌++◌, Bytes, false, some, inl, inr, All}
use rmm.Client.State.{System, Agent, Capture, entering, waiting}
use rmm.Client.Capture.{is_closed, Turn, enters, stops, is_ready, capture_turn, after_turn}
use rmm.Client.Tracked.{IsTracked, Knows}
use rmm.Client.Running.{Reachable, Reachable-IsTracked}

-- A run of turns of capture goroutines, any of them at each time.
pub data Turns (last : Agent) : Agent → Type 0 where
  done : Turns last last
  takes :
      (t : Turn) (g : Capture) (before after gs : List Capture) (a : Agent)
      → a.captures ≡ before ++ (g ∷ after)
      → capture_turn t g a ≡ some gs
      → Turns last (record (after_turn t a) { captures = before ++ (gs ++ after) })
      → Turns last a

-- The channel of a goroutine is closed: the one it waits for, or the one that it will enter with.
abbrev pub SeesEnd : Agent → Capture → Type 0
SeesEnd a entering = (c : ℕ) × (a.stop_capture ≡ some c) × (is_closed c a.closed ≡ true)
SeesEnd a (waiting w) = (c : ℕ) × (w ≡ some c) × (is_closed c a.closed ≡ true)

Knows-SeesEnd :
    (a : Agent) (g : Capture)
    → a.capturing ≡ false
    → IsTracked a
    → Knows a.stop_capture a.closed g
    → SeesEnd a g
Knows-SeesEnd a entering off w (c, e) = (c, e, w.shut off c e)
Knows-SeesEnd a (waiting x) off w (_, (c, e, inl h)) = (c, e, h)
Knows-SeesEnd a (waiting x) off w (_, (c, e, inr h)) = (c, e, w.shut off c h)

All-SeesEnd :
    (a : Agent) (gs : List Capture)
    → a.capturing ≡ false
    → IsTracked a
    → All (Knows a.stop_capture a.closed) gs
    → All (SeesEnd a) gs
All-SeesEnd a [] off w h = tt
All-SeesEnd a (g ∷ gs) off w (h, hs) = (Knows-SeesEnd a g off w h, All-SeesEnd a gs off w hs)

-- The first goroutine ends, in one turn or two.
first_ends :
    (a b : Agent) (g : Capture) (gs : List Capture)
    → SeesEnd a g
    → Turns b (record a { captures = gs })
    → Turns b (record a { captures = g ∷ gs })
unfolding capture_turn after_turn is_ready
first_ends a b (waiting w) gs (c, e, h) rest =
    takes stops (waiting w) [] gs [] _ refl (rw (e, h) refl) rest
first_ends a b entering gs (c, e, h) rest =
    takes enters entering [] gs (waiting a.stop_capture ∷ []) _ refl refl
      (takes stops (waiting a.stop_capture) [] gs [] _ refl (rw (e, h) refl) rest)

all_end :
    (a : Agent) (gs : List Capture)
    → All (SeesEnd a) gs
    → Turns (record a { captures = [] }) (record a { captures = gs })
all_end a [] h = done
all_end a (g ∷ gs) (h, hs) = first_ends a _ g gs h (all_end a gs hs)

-- In every state that the agent reaches and in which no capture runs, whatever turns the goroutines took
-- since the stop, the channel of each goroutine is closed, so that its select can receive from it at
-- once or when it next enters; and a run of turns leads to a state without any goroutine.
pub captures_end :
    (system : System) (name credential : Bytes) (a : Agent)
    → Reachable system name credential a
    → a.capturing ≡ false
    → All (SeesEnd a) a.captures × ((b : Agent) × Turns b a × (b.captures ≡ []))
captures_end system name credential a reached off =
    let w = Reachable-IsTracked system name credential a reached in
    let ready = All-SeesEnd a a.captures off w w.known in
    (ready, (record a { captures = [] }, all_end a a.captures ready, refl))
