-- ===== src/Client/Capture.antt =====
-- cmd/agent/capture.go: startCapture, stopCaptureLoop, handleSwitchDisplay and the capture goroutine,
-- one turn of its loop at a time.
use rmm.Base.{
  ℕ, suc, List, [], ◌∷◌, Bytes, codes, ◌==◌, if◌then◌else◌, Bool, true, false, ◌||◌, Option, none,
  some,
}
use rmm.Base.Int.{lt_ℕ, above}
use rmm.Protocol.Frame.{bin_screen}
use rmm.Client.State.{System, Agent, Capture, entering, waiting, send_message, send_binary}

unfoldable pub is_closed : ℕ → List ℕ → Bool
is_closed c [] = false
is_closed c (d ∷ closed) = c == d || is_closed c closed

unfoldable pub start_capture : Agent → Agent
start_capture a = if a.capturing then a else record a {
  capturing = true;
  stop_capture = some a.next_channel;
  next_channel = suc a.next_channel;
  captures = entering ∷ a.captures;
}

-- `none` is the run-time panic of closing a closed channel.
unfoldable pub close_channel : ℕ → Agent → Option Agent
unfolding is_closed
close_channel c a =
    if is_closed c a.closed
    then none
    else some (record a { closed = c ∷ a.closed; capturing = false })

unfoldable pub stop_capture_loop : Agent → Option Agent
stop_capture_loop a =
    if a.capturing
    then elim a.stop_capture [ none ↦ some a | some c ↦ close_channel c a ]
    else some a

-- What a capture that succeeds sends.
unfoldable pub capture_ticks : Option Bytes → Agent → Agent
capture_ticks none a = a
capture_ticks (some image) a = send_binary (bin_screen ∷ image) a

-- A turn of a goroutine: it enters its select, which evaluates the channel; it receives from the closed
-- channel; or it receives from its ticker, and none is a capture that fails.
pub data Turn : Type 0 where
  enters : Turn
  stops : Turn
  ticks : Option Bytes → Turn

unfoldable pub is_ready : Option ℕ → Agent → Bool
unfolding is_closed
is_ready none a = false
is_ready (some c) a = is_closed c a.closed

-- What is left of the goroutine: nothing when it returns. The outer `none` is a turn that it cannot take.
-- Where both channels are ready the select takes either.
unfoldable pub capture_turn : Turn → Capture → Agent → Option (List Capture)
unfolding is_ready
capture_turn enters entering a = some (waiting a.stop_capture ∷ [])
capture_turn stops (waiting c) a = if is_ready c a then some [] else none
capture_turn (ticks image) (waiting c) a = some (entering ∷ [])
capture_turn enters (waiting c) a = none
capture_turn stops entering a = none
capture_turn (ticks image) entering a = none

unfoldable pub after_turn : Turn → Agent → Agent
after_turn enters a = a
after_turn stops a = a
after_turn (ticks image) a = capture_ticks image a

unfoldable pub handle_switch_display : System → Bytes → Agent → Agent
handle_switch_display system payload a = elim (system.decode_display payload) [
  | none ↦ a
  | some display ↦
      if lt_ℕ display 1 || above display system.display_count
      then a
      else send_message system
          (record {
            kind = codes "display_switched";
            payload = system.encode_switched display system.display_count;
          })
          (record a { current_display = display })
]
