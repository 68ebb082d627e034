-- ===== src/Client/Stream/Connections.antt =====
-- cmd/agent/main.go: the loop of main over the connections of the agent.
use rmm.Base.{ℕ, suc, ◌≤◌, ◌≡◌, [], ◌++◌, List, ◌∷◌, Bytes, Bool, arith, length}
use rmm.Protocol.Stream.{panicked}
use rmm.Protocol.Frame.{read_frame}
use rmm.Client.State.{System, Agent}
use rmm.Client.Kept.{IsKept}
use rmm.Client.Stream.{Ended, returned, crashed, Network, next_connection, connections}
use rmm.Client.Stream.Ends.{Ends, ends, allocates, run-Ends}

module _ (system : System) (max_alloc : ℕ) (credential : Bytes) where
  -- A frame of one of the connections announces more than can be allocated.
  pub data Allocates : List Network → Type 0 where
    now :
        (net : Network) (nets : List Network) (front back : Bytes)
        → net.stream ≡ front ++ back
        → read_frame max_alloc back ≡ panicked
        → Allocates (net ∷ nets)
    later : (net : Network) (nets : List Network) → Allocates nets → Allocates (net ∷ nets)

  -- The loop of main has come through all connections, or one of them has crashed it.
  pub data Survives (nets : List Network) : Ended → Type 0 where
    survives : (a : Agent) → IsKept system credential a → Survives nets (returned a)
    crashes : Allocates nets → Survives nets crashed

  onto_later :
      (net : Network) (nets : List Network) (e : Ended) → Survives nets e → Survives (net ∷ nets) e
  onto_later net nets _ (survives a w) = survives a w
  onto_later net nets _ (crashes why) = crashes (later net nets why)

  -- Over any connections, whatever they deliver, the loop of main goes on from each to the next with the
  -- credential that it started with and its captures and its display in order, unless a frame announces
  -- more bytes than can be allocated.
  pub connections-Survives :
      (has_config : Bool) (nets : List Network) (a : Agent)
      → 1 ≤ system.display_count
      → IsKept system credential a
      → Survives nets (connections system max_alloc has_config nets a)
  unfolding connections
  connections-Survives has_config [] a displays w = survives a w
  connections-Survives has_config (net ∷ nets) a displays w =
      from _
        (run-Ends system max_alloc credential (suc (length net.stream)) has_config net a displays
          (omega arith) w)
        λ a' w'. connections-Survives has_config nets a' displays w'
    where
      from :
          (e : Ended)
          → Ends system max_alloc credential net.stream e
          → ((a' : Agent)
              → IsKept system credential a'
              → Survives nets (connections system max_alloc has_config nets a'))
          → Survives (net ∷ nets) (next_connection e (connections system max_alloc has_config nets))
      from _ (ends a' w') go = onto_later net nets _ (go a' w')
      from _ (allocates front back split fails) go = crashes (now net nets front back split fails)
