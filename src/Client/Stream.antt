-- ===== src/Client/Stream.antt =====
-- cmd/agent/agent.go: run over the bytes that a connection delivers; cmd/agent/main.go: the loop of main.
-- A message loop is given the number of frames that it may read.
pub mod Ends
pub mod Connections
pub mod Written
use rmm.Base.{
  ℕ, zero, suc, List, [], ◌∷◌, length, Bytes, Bool, true, false, not, if◌then◌else◌, Option, none,
  some,
}
use rmm.Protocol.Stream.{ok, err, panicked}
use rmm.Protocol.Frame.{read_frame}
use rmm.Client.Dial.{Url, dial_error, dialed, dial_web_socket}
use rmm.Client.State.{System, Agent}
use rmm.Client.Loop.{Round, continues, returns, panics, open_run, run_round}

-- What `run` ends in; `unfinished` is a loop that may read no further frame.
pub data Ended : Type 0 where
  returned : Agent → Ended
  crashed : Ended
  unfinished : Ended

-- What follows a round of the loop.
abbrev pub after : Round → (Agent → Ended) → Ended
after (continues a) next = next a
after (returns a) next = returned a
after panics next = crashed

module _ (system : System) (max_alloc : ℕ) where
  unfoldable pub message_loop : ℕ → Bytes → Agent → Ended
  message_loop zero stream a = unfinished
  message_loop (suc frames) stream a = elim (read_frame max_alloc stream) [
    | panicked ↦ crashed
    | err e ↦ after (run_round system none a) returned
    | ok (f, rest) ↦ after (run_round system (some f) a) λ a'. message_loop frames rest a'
  ]

  -- `written` tells whether the registration could be written.
  unfoldable pub run_stream : ℕ → Bool → Bytes → Agent → Ended
  run_stream frames written stream a =
      if not written
      then after (open_run system false none a) returned
      else elim (read_frame max_alloc stream) [
        | panicked ↦ crashed
        | err e ↦ after (open_run system true none a) returned
        | ok (f, rest) ↦ after (open_run system true (some f) a) λ a'. message_loop frames rest a'
      ]

-- What the network answers to a run: the URL as url.Parse gives it, whether a dial succeeds, whether the
-- request and the registration can be written, the key of the handshake, and what is delivered.
pub record Network : Type 0 where
  pub parsed : Option Url
  pub connects : Bytes → Bool → Bool
  pub requested : Bool
  pub key : Bytes
  pub registered : Bool
  pub stream : Bytes

-- `has_config` tells whether there is a TLS configuration.
unfoldable pub run : System → ℕ → ℕ → Bool → Network → Agent → Ended
run system max_alloc frames has_config net a =
    elim (dial_web_socket net.parsed has_config net.connects net.requested net.key net.stream) [
      | dial_error ↦ returned a
      | dialed host over_tls request rest ↦ run_stream system max_alloc frames net.registered rest a
    ]

abbrev pub next_connection : Ended → (Agent → Ended) → Ended
next_connection (returned a) next = next a
next_connection crashed next = crashed
next_connection unfinished next = unfinished

-- The loop of main, over the connections that it makes one after the other.
unfoldable pub connections : System → ℕ → Bool → List Network → Agent → Ended
connections system max_alloc has_config [] a = returned a
connections system max_alloc has_config (net ∷ nets) a =
    next_connection (run system max_alloc (suc (length net.stream)) has_config net a)
      λ a'. connections system max_alloc has_config nets a'
