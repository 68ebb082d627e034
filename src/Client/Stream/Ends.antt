-- ===== src/Client/Stream/Ends.antt =====
-- cmd/agent/agent.go: how run ends.
use rmm.Base.{
  ℕ, zero, suc, ◌+◌, ◌≤◌, ◌<◌, ◌≡◌, refl, ap, sym, ◌∙◌, [], ◌++◌, Bytes, Bool, true, false, Option,
  none, some, arith, length, length-append, append_assoc,
}
use rmm.Protocol.Stream.{Outcome, ok, err, panicked}
use rmm.Protocol.Frame.{Frame, read_frame}
use rmm.Protocol.Frame.Reading.{read_frame-IsReader, read_frame_shorter}
use rmm.Client.State.{System, Agent}
use rmm.Client.Loop.{Round, continues, returns, panics, open_run, run_round}
use rmm.Client.Sound.{RoundEnds}
use rmm.Client.Kept.{IsKept, round-IsKept, open_run-IsKept}
use rmm.Client.Stream.{Ended, returned, crashed, after, message_loop, run_stream, Network, run}
use rmm.Client.Dial.{Dialed, dial_error, dialed, dial_web_socket}
use rmm.Client.Dial.Suffix.{IsSuffix, dial_web_socket-suffix}

module _ (system : System) (max_alloc : ℕ) (credential : Bytes) where
  -- `run` has returned with an agent in order that keeps its credential, or a frame of the stream announces more than can be allocated.
  pub data Ends (stream : Bytes) : Ended → Type 0 where
    ends : (a : Agent) → IsKept system credential a → Ends stream (returned a)
    allocates :
        (front back : Bytes)
        → stream ≡ front ++ back
        → read_frame max_alloc back ≡ panicked
        → Ends stream crashed

  further : (front rest : Bytes) (e : Ended) → Ends rest e → Ends (front ++ rest) e
  further front rest _ (ends a w) = ends a w
  further front rest _ (allocates front' back split fails) =
      allocates (front ++ front') back
        (ap (λ t. front ++ t) split ∙ sym (append_assoc front front' back)) fails

  after-Ends :
      (r : Round) (next : Agent → Ended) (stream : Bytes)
      → RoundEnds (IsKept system credential) r
      → ((a : Agent) → IsKept system credential a → Ends stream (next a))
      → Ends stream (after r next)
  after-Ends (continues a) next stream w go = go a w
  after-Ends (returns a) next stream w go = ends a w
  after-Ends panics next stream w go = elim w [ ]

  -- What is left behind a frame.
  behind :
      (stream rest : Bytes) (f : Frame) (e : Ended)
      → read_frame max_alloc stream ≡ ok (f, rest)
      → Ends rest e
      → Ends stream e
  behind stream rest f e read h =
      let (front, split) = (read_frame-IsReader max_alloc).takes stream f rest read in
      rw (sym split) at (further front rest e h)

  -- One frame is read, and a round follows.
  reading-Ends :
      (stream : Bytes) (round : Option Frame → Round) (next : Bytes → Agent → Ended)
      → ((frame : Option Frame) → RoundEnds (IsKept system credential) (round frame))
      → ((f : Frame) (rest : Bytes) (a : Agent)
          → length rest + 2 ≤ length stream
          → IsKept system credential a
          → Ends rest (next rest a))
      → Ends stream (elim (read_frame max_alloc stream) as (λ _. Ended) [
        | panicked ↦ crashed
        | err e ↦ after (round none) returned
        | ok (f, rest) ↦ after (round (some f)) λ a. next rest a
      ])
  reading-Ends stream round next sound go = from (read_frame max_alloc stream) refl
    where
      from :
          (o : Outcome (Frame × Bytes))
          → read_frame max_alloc stream ≡ o
          → Ends stream (elim o as (λ _. Ended) [
            | panicked ↦ crashed
            | err e ↦ after (round none) returned
            | ok (f, rest) ↦ after (round (some f)) λ a. next rest a
          ])
      from panicked read = allocates [] stream refl read
      from (err e) read = after-Ends _ returned stream (sound none) ends
      from (ok (f, rest)) read = after-Ends _ _ stream (sound (some f)) λ a w.
          behind stream rest f _ read
            (go f rest a (read_frame_shorter max_alloc stream rest f read) w)

  message_loop-Ends :
      (frames : ℕ) (stream : Bytes) (a : Agent)
      → length stream < frames
      → IsKept system credential a
      → Ends stream (message_loop system max_alloc frames stream a)
  unfolding message_loop
  message_loop-Ends zero stream a enough w = absurd (omega (arith, enough))
  message_loop-Ends (suc frames) stream a enough w =
      reading-Ends stream (λ frame. run_round system frame a) (message_loop system max_alloc frames)
        (λ frame. round-IsKept system credential frame a w)
        λ f rest a' shorter w'. message_loop-Ends frames rest a' (omega (arith, enough, shorter)) w'

  run_stream-Ends :
      (frames : ℕ) (written : Bool) (stream : Bytes) (a : Agent)
      → 1 ≤ system.display_count
      → length stream < frames
      → IsKept system credential a
      → Ends stream (run_stream system max_alloc frames written stream a)
  unfolding run_stream
  run_stream-Ends frames false stream a displays enough w =
      after-Ends _ returned stream (open_run-IsKept system credential false none a displays w) ends
  run_stream-Ends frames true stream a displays enough w =
      reading-Ends stream (λ frame. open_run system true frame a)
        (message_loop system max_alloc frames)
        (λ frame. open_run-IsKept system credential true frame a displays w)
        λ f rest a' shorter w'. message_loop-Ends frames rest a' (omega (arith, enough, shorter)) w'

  -- Whatever bytes a connection delivers before it ends, `run` comes to an end after less frames than
  -- bytes: it returns with its captures and its display in order and with its credential, unless a
  -- frame announces more bytes than can be allocated.
  pub run-Ends :
      (frames : ℕ) (has_config : Bool) (net : Network) (a : Agent)
      → 1 ≤ system.display_count
      → length net.stream < frames
      → IsKept system credential a
      → Ends net.stream (run system max_alloc frames has_config net a)
  unfolding run
  run-Ends frames has_config net a displays enough w =
      from (dial_web_socket net.parsed has_config net.connects net.requested net.key net.stream)
        λ host over_tls request rest e.
          dial_web_socket-suffix net.parsed has_config net.connects net.requested net.key net.stream
            host over_tls request rest e
    where
      from :
          (d : Dialed)
          → ((host : Bytes) (over_tls : Bool) (request rest : Bytes)
              → d ≡ dialed host over_tls request rest
              → IsSuffix rest net.stream)
          → Ends net.stream (elim d as (λ _. Ended) [
            | dial_error ↦ returned a
            | dialed host over_tls request rest ↦
                run_stream system max_alloc frames net.registered rest a
          ])
      from dial_error suffix = ends a w
      from (dialed host over_tls request rest) suffix =
          let (front, split) = suffix host over_tls request rest refl in
          rw (sym split) at (
            further front rest _ (
              run_stream-Ends frames net.registered rest a displays
                (omega (arith, enough, ap length split, length-append front rest)) w))
