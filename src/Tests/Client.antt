-- ===== src/Tests/Client.antt =====
-- An agent that starts and stops its captures.
use rmm.Base.{
  ℕ, true, false, inl, inr, ◌≡◌, ◌≢◌, refl, [], ◌∷◌, ◌++◌, All, Bytes, codes, arith, Option, none,
  some, text_eq,
}
use rmm.Base.Int.{pos}
use rmm.Protocol.Frame.{Frame}
use rmm.Client.State.{register, System, Agent, entering, waiting, new_agent}
use rmm.Client.Capture.{
  start_capture, stop_capture_loop, close_channel, is_closed, capture_turn, after_turn, enters,
  stops,
}
use rmm.Client.Loop.{open_run, panics, run_round, dispatch}
use rmm.Client.Sound.{IsSound}
use rmm.Client.Running.{
  Reachable, starts, steps, opens, receives, takes, Reachable-ne-panics, Reachable-IsSound,
  capture_restart,
}
use rmm.Client.Ending.{SeesEnd, Turns, captures_end}
use rmm.Tests.Samples.{registration_of}

abbrev system : System
system = record {
  decode_message = λ payload. some (record { kind = payload; payload = [] });
  encode_message = λ m. m.kind;
  decode_input = λ payload. none;
  decode_display = λ payload. some (pos 2);
  encode_switched = λ display count. codes "switched";
  system_info = λ name. registration_of [];
  to_json = λ reg. reg.credential;
  display_count = 2;
}

abbrev idle : Agent
idle = new_agent (codes "desk") (codes "v1.a1.00")

abbrev registered_agent : Agent
registered_agent = register system idle

-- A capture runs and waits in its select, and then it was stopped.
abbrev capturing : Agent
capturing = record registered_agent {
  capturing = true;
  stop_capture = some 0;
  next_channel = 1;
  captures = entering ∷ [];
}

abbrev in_select : Agent
in_select = record capturing { captures = waiting (some 0) ∷ [] }

abbrev stopped : Agent
stopped = record in_select { capturing = false; closed = 0 ∷ [] }

abbrev order : Bytes → Option Frame
order kind = some (record { opcode = 1; payload = kind })

opened : Reachable system (codes "desk") (codes "v1.a1.00") registered_agent
unfolding open_run
opened = steps starts (opens true none registered_agent (inr refl))

started : Reachable system (codes "desk") (codes "v1.a1.00") capturing
unfolding run_round dispatch start_capture register new_agent text_eq
started = steps opened (receives (order (codes "start_capture")) capturing (inl refl))

waits : Reachable system (codes "desk") (codes "v1.a1.00") in_select
unfolding capture_turn after_turn
waits = steps started (takes enters entering [] [] (waiting (some 0) ∷ []) refl refl)

ended : Reachable system (codes "desk") (codes "v1.a1.00") stopped
unfolding run_round dispatch stop_capture_loop close_channel is_closed register new_agent text_eq
ended = steps waits (receives (order (codes "stop_capture")) stopped (inl refl))

Reachable-ne-panics_example :
    IsSound system registered_agent
    × ((frame : Option Frame) → run_round system frame registered_agent ≢ panics)
Reachable-ne-panics_example =
    Reachable-ne-panics system (codes "desk") (codes "v1.a1.00") registered_agent (omega arith)
      opened

capture_restart_example :
    (old : ℕ) × (new : ℕ) × (a' : Agent) × (capturing.stop_capture ≡ some old)
    × (stop_capture_loop capturing ≡ some a')
    × let b = start_capture a' in
      (b.captures ≡ entering ∷ ([] ++ (entering ∷ [])))
      × (capture_turn enters entering b ≡ some (waiting (some new) ∷ []))
      × (capture_turn stops (waiting (some new)) b ≡ none)
      × (capture_turn stops (waiting (some old)) b ≡ some [])
capture_restart_example =
    capture_restart system capturing [] []
      (Reachable-IsSound system (codes "desk") (codes "v1.a1.00") capturing (omega arith) started)
      refl refl

captures_end_example :
    All (SeesEnd stopped) stopped.captures × ((b : Agent) × Turns b stopped × (b.captures ≡ []))
captures_end_example = captures_end system (codes "desk") (codes "v1.a1.00") stopped ended refl
