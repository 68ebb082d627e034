-- ===== src/Server/Viewer.antt =====
-- cmd/server/handler_viewer.go: handleViewer and viewerInputLoop, whose rounds are single steps.
use rmm.Base.{
  ℕ, [], Bytes, codes, ◌==◌, text_eq, if◌then◌else◌, Bool, true, false, not, ◌||◌, Option, none,
  some,
}
use rmm.Base.Map.{get, put, delete, nat_eq, bytes_eq}
use rmm.Http.{Request, Response, failed, status_bad_request, status_unauthorized, status_not_found}
use rmm.Protocol.Frame.{Frame, op_text, op_close}
use rmm.Store.{ApiKey, Call, Result, ok, err}
use rmm.Security.Token.{hash_api_key}
use rmm.Server.State.{Services, Server, send, close}
use rmm.Server.Upgrade.{upgraded, Hijack, upgrade_websocket}

abbrev pub bare : {S : Type 0} → Services S → Bytes → Bytes
bare services kind = services.encode_message (record { kind = kind; payload = [] })

-- `err != nil || apiKey == nil` is false.
abbrev pub is_known : Result (Option ApiKey) → Bool
is_known (ok (some k)) = true
is_known (ok none) = false
is_known (err e) = false

module _ {S : Type 0} (services : Services S) (call : Call) where
  -- The viewer takes the place of another one of this agent, and the agent is told to start.
  unfoldable pub connect_viewer : ℕ → Bytes → ℕ → Server S → Server S
  connect_viewer conn agent_id agent s =
      send agent op_text (bare services (codes "start_capture")) (record s {
        viewers = put agent_id conn s.viewers;
        viewer_loops = put conn (agent_id, agent) s.viewer_loops;
      })

  -- `agent` is the pointer that is found in the registry.
  unfoldable pub open_viewer :
      ℕ → Hijack → Request → Bytes → Server S → Option (Response (Unit {0})) × Server S
  open_viewer conn outcome r agent_id s = elim (get agent_id s.agents) [
    | none ↦ (some (failed status_not_found (codes "agent not found")), s)
    | some agent ↦ elim (upgrade_websocket services.sha1 services.base64 outcome r) [
      | upgraded response ↦ (none, connect_viewer conn agent_id agent s)
      | other ↦ (none, s)
    ]
  ]

  unfoldable pub handle_viewer :
      ℕ → Hijack → Request → Server S → Option (Response (Unit {0})) × Server S
  handle_viewer conn outcome r s =
      let token = r.query (codes "token") in
      if text_eq token []
      then (some (failed status_unauthorized (codes "authentication required")), s)
      else let (result, db) =
          services.store.verify_api_key call (hash_api_key services.sha256 token) s.store in
        let s₁ = record s { store = db } in
        if not (is_known result)
        then (some (failed status_unauthorized (codes "invalid API key")), s₁)
        else if text_eq (r.query (codes "agent")) []
        then (some (failed status_bad_request (codes "agent parameter required")), s₁)
        else open_viewer conn outcome r (r.query (codes "agent")) s₁

  -- The deferred function of handleViewer.
  unfoldable pub viewer_disconnect : ℕ → Bytes → ℕ → Server S → Server S
  viewer_disconnect conn agent_id agent s = close conn (
      send agent op_text (bare services (codes "stop_capture")) (record s {
        viewers = delete agent_id s.viewers;
        viewer_loops = delete conn s.viewer_loops;
      }))

  unfoldable pub forward_input : ℕ → Bytes → Server S → Server S
  forward_input agent payload s = elim (services.decode_message payload) [
    | none ↦ s
    | some m ↦
        if text_eq m.kind (codes "input") || text_eq m.kind (codes "switch_display")
        then send agent op_text payload s
        else s
  ]

  -- One round of viewerInputLoop, on the connection of a viewer of the agent `agent`.
  unfoldable pub viewer_input_round : ℕ → Bytes → ℕ → Option Frame → Server S → Server S
  viewer_input_round conn agent_id agent none s = viewer_disconnect conn agent_id agent s
  viewer_input_round conn agent_id agent (some f) s =
      if f.opcode == op_close
      then viewer_disconnect conn agent_id agent s
      else if not (f.opcode == op_text)
      then s
      else forward_input agent f.payload s
