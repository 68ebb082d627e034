-- ===== src/Client/Stream/Written.antt =====
-- cmd/agent/agent.go and internal/protocol: run on the bytes of the frames that the server writes.
use rmm.Base.{
  ℕ, zero, suc, ◌≤◌, ◌<◌, ◌^◌, ◌≡◌, refl, ap, ◌∙◌, List, [], ◌∷◌, ◌++◌, Bytes, Bool, true, Option,
  none, some, arith, length, All, text_eq,
}
use rmm.Go.Strings.{newline}
use rmm.Go.Strings.Laws.{Without}
use rmm.Protocol.Stream.{ok, err, panicked, eof, read_full}
use rmm.Protocol.Frame.{Frame, read_frame, write_server_frame}
use rmm.Protocol.Frame.RoundTrip.{read_frame-write_server_frame}
use rmm.Client.State.{System, Agent}
use rmm.Client.Loop.{Round, continues, returns, panics, open_run, run_round}
use rmm.Client.Stream.{Ended, returned, crashed, after, message_loop, run_stream, Network, run}
use rmm.Client.Dial.{
  Url, dialed, dial_error, dial_host, dials_tls, dial_web_socket, handshake_request, socket_path,
}
use rmm.Client.Dial.Handshake.{dial_web_socket-handshake_response}
use rmm.Server.Upgrade.{handshake_response}

-- The frames one behind the other, as WriteServerFrame writes them.
unfoldable pub written : List Frame → Bytes
written [] = []
written (f ∷ fs) = write_server_frame f.opcode f.payload ++ written fs

abbrev pub IsWritable : ℕ → Frame → Type 0
IsWritable max_alloc f =
    (f.opcode < 16) × (length f.payload ≤ max_alloc) × (length f.payload < 2 ^ 64)

after_same :
    (r : Round) (next next' : Agent → Ended)
    → ((a : Agent) → next a ≡ next' a)
    → after r next ≡ after r next'
after_same (continues a) next next' same = same a
after_same (returns a) next next' same = refl
after_same panics next next' same = refl

module _ (system : System) where
  -- The loop on frames: a round for each of them, and the read error behind the last.
  unfoldable pub run_frames : List Frame → Agent → Ended
  run_frames [] a = after (run_round system none a) returned
  run_frames (f ∷ fs) a = after (run_round system (some f) a) λ a'. run_frames fs a'

  -- `run` on the response to the registration and the frames behind it.
  unfoldable pub run_session : Frame → List Frame → Agent → Ended
  run_session response fs a = after (open_run system true (some response) a) λ a'. run_frames fs a'

module _ (system : System) (max_alloc : ℕ) where
  -- One written frame is read, and a round follows.
  reading_written :
      (f : Frame) (rest : Bytes) (round : Option Frame → Round) (next : Bytes → Agent → Ended)
      → IsWritable max_alloc f
      → ◌≡◌ {A = Ended}
          (elim (read_frame max_alloc (write_server_frame f.opcode f.payload ++ rest))
            as (λ _. Ended) [
              | panicked ↦ crashed
              | err e ↦ after (round none) returned
              | ok (g, back) ↦ after (round (some g)) λ a. next back a
            ])
          (after (round (some f)) λ a. next rest a)
  reading_written f rest round next (opcode, fits, short) =
      rw (read_frame-write_server_frame max_alloc f.opcode f.payload rest opcode fits short) refl

  end_of_stream : read_frame max_alloc [] ≡ err eof
  unfolding read_frame read_full text_eq
  end_of_stream = refl

  message_loop-written :
      (frames : ℕ) (fs : List Frame) (a : Agent)
      → length fs < frames
      → All (IsWritable max_alloc) fs
      → message_loop system max_alloc frames (written fs) a ≡ run_frames system fs a
  unfolding message_loop run_frames written
  message_loop-written zero fs a enough valid = absurd (omega (arith, enough))
  message_loop-written (suc frames) [] a enough valid = rw (end_of_stream, message_loop) refl
  message_loop-written (suc frames) (f ∷ fs) a enough valid =
      reading_written f (written fs) (λ frame. run_round system frame a)
        (message_loop system max_alloc frames) valid.0
      ∙ after_same (run_round system (some f) a) _ _
          λ a'. message_loop-written frames fs a' (omega (arith, enough)) valid.1

  run_stream-written :
      (frames : ℕ) (response : Frame) (fs : List Frame) (a : Agent)
      → length fs < frames
      → IsWritable max_alloc response
      → All (IsWritable max_alloc) fs
      → run_stream system max_alloc frames true (written (response ∷ fs)) a
        ≡ run_session system response fs a
  unfolding run_stream run_session written
  run_stream-written frames response fs a enough first valid =
      reading_written response (written fs) (λ frame. open_run system true frame a)
        (message_loop system max_alloc frames) first
      ∙ after_same (open_run system true (some response) a) _ _
          λ a'. message_loop-written frames fs a' enough valid

  -- A run that connects to a server which answers the handshake, and then writes a response to the
  -- registration and any frames behind it, does on these bytes what it does on the frames themselves,
  -- in their order, for as many frames as it goes on.
  pub run-written :
      (frames : ℕ) (has_config : Bool) (net : Network) (u : Url) (accept : Bytes) (response : Frame)
      (fs : List Frame) (a : Agent)
      → net.parsed ≡ some u
      → net.connects (dial_host u) (dials_tls u has_config) ≡ true
      → net.requested ≡ true
      → net.registered ≡ true
      → net.stream ≡ handshake_response accept ++ written (response ∷ fs)
      → Without newline accept
      → length fs < frames
      → IsWritable max_alloc response
      → All (IsWritable max_alloc) fs
      → run system max_alloc frames has_config net a ≡ run_session system response fs a
  unfolding run
  run-written frames has_config net u accept response fs a parsed connects requested registered
        delivered line enough first valid =
      ap
        (λ o. elim o as (λ _. Ended) [
          | dial_error ↦ returned a
          | dialed host over_tls request rest ↦
              run_stream system max_alloc frames net.registered rest a
        ])
        dial
      ∙ (ap (λ b. run_stream system max_alloc frames b (written (response ∷ fs)) a) registered
          ∙ run_stream-written frames response fs a enough first valid)
    where
      dial :
          dial_web_socket net.parsed has_config net.connects net.requested net.key net.stream
          ≡ dialed
              (dial_host u)
              (dials_tls u has_config)
              (handshake_request (socket_path u) (dial_host u) net.key)
              (written (response ∷ fs))
      dial = cc (
        parsed,
        requested,
        delivered,
        dial_web_socket-handshake_response u has_config net.connects net.key accept
            (written (response ∷ fs)) connects line,
      )
