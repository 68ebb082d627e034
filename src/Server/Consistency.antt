-- ===== src/Server/Consistency.antt =====
-- cmd/server: every step of the server keeps its maps and loops in agreement.
use rmm.Base.{◌≡◌, Bytes, Option}
use rmm.Base.Map.{bytes_eq, nat_eq}
use rmm.Security.Platform.{Platform}
use rmm.Server.State.{Services, Server, new_server}
use rmm.Server.StoreOnly.{
  store_agent-StoreOnly, handle_enroll-StoreOnly, handle_enrollment_tokens-StoreOnly,
  handle_auth_verify-StoreOnly,
}
use rmm.Server.Broker.{empty-IsBroker}
use rmm.Server.Steps.{
  agent_connects, viewer_connects, stores_agent, Step, agent_opens, agent_speaks, viewer_opens,
  viewer_speaks, enrolls, manages_tokens, verifies, Reachable, starts, steps,
}
use rmm.Server.Handlers.{
  IsConsistent, register-IsConsistent, connect_viewer-IsConsistent, agent_opens-IsConsistent,
  agent_round-IsConsistent, viewer_opens-IsConsistent, viewer_round-IsConsistent,
}

module _ {S : Type 0} (services : Services S) where
  store_only :
      (s s' : Server S) (db : S) → IsConsistent s → s' ≡ record s { store = db } → IsConsistent s'
  store_only s s' db w e = rw e w

  -- Every step keeps the agreement of the maps with the running loops.
  pub Step-IsConsistent : (s s' : Server S) → Step services s s' → IsConsistent s → IsConsistent s'
  Step-IsConsistent s _ (agent_opens call conn outcome r frame fresh) w =
      agent_opens-IsConsistent services call s conn outcome r frame w fresh
  Step-IsConsistent s _ (agent_speaks call conn id frame loop) w =
      agent_round-IsConsistent services call s conn id frame w loop
  Step-IsConsistent s _ (viewer_opens call conn outcome r fresh) w =
      viewer_opens-IsConsistent services call s conn outcome r w fresh
  Step-IsConsistent s _ (viewer_speaks call conn id agent frame loop) w =
      viewer_round-IsConsistent services call s conn id agent frame w loop
  Step-IsConsistent s _ (agent_connects call conn addr enrolled reg fresh) w =
      register-IsConsistent services call s conn addr enrolled reg w fresh
  Step-IsConsistent s _ (viewer_connects call conn id agent fresh here) w =
      connect_viewer-IsConsistent services call s conn id agent w fresh here
  Step-IsConsistent s _ (stores_agent call id req) w =
      let (db, same) = store_agent-StoreOnly services s call id req s.store in
      store_only s _ db w same
  Step-IsConsistent s _ (enrolls first second r body) w =
      let (db, same) = handle_enroll-StoreOnly services s first second r body in
      store_only s _ db w same
  Step-IsConsistent s _ (manages_tokens call random id_bytes r body) w =
      let (db, same) = handle_enrollment_tokens-StoreOnly services s call random id_bytes r body in
      store_only s _ db w same
  Step-IsConsistent s _ (verifies call r body) w =
      let (db, same) = handle_auth_verify-StoreOnly services s call r body in
      store_only s _ db w same

  -- However the connections interleave, in every state that a new server reaches an agent of the
  -- registry is served by a loop of its own ID, a viewer of an agent by a loop for that agent, and
  -- each loop holds a live agent of its ID, which has at least one display.
  pub Reachable-IsConsistent :
      (db : S) (platform : Platform) (tls_ca : Option Bytes) (s : Server S)
      → Reachable services db platform tls_ca s
      → IsConsistent s
  unfolding new_server
  Reachable-IsConsistent db platform tls_ca _ starts = empty-IsBroker
  Reachable-IsConsistent db platform tls_ca s (steps before step) =
      Step-IsConsistent _ s step (Reachable-IsConsistent db platform tls_ca _ before)
