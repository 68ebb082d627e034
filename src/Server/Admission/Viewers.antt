-- ===== src/Server/Admission/Viewers.antt =====
-- cmd/server/handler_viewer.go: which viewers are let in.
use rmm.Base.{
  ℕ, ◌≡◌, refl, ◌≢◌, ap, false, [], Bytes, codes, text_eq, text_eq_iff, if◌then◌else◌, not, Option,
  none, some, arith, if_rule,
}
use rmm.Base.Map.{get, bytes_eq, nat_eq}
use rmm.Http.{Request, Response, failed}
use rmm.Store.{AgentRecord, ApiKey, Call, ok}
use rmm.Store
use rmm.Security.Token.{hash_api_key}
use rmm.Server.State.{Services, Server}
use rmm.Server.Upgrade.{Hijack, Upgrade, upgraded, err, upgrade_websocket}
use rmm.Server.Viewer.{is_known, connect_viewer, open_viewer, handle_viewer}

module _ {S : Type 0} (services : Services S) (call : Call) (conn : ℕ) (outcome : Hijack)
    (r : Request) where
  abbrev verification : Server S → Store.Result (Option ApiKey) × S
  verification s =
      services.store.verify_api_key call (hash_api_key services.sha256 (r.query (codes "token")))
        s.store

  -- The store after the key was looked up, if one was given.
  abbrev checked : Server S → S
  checked s = if text_eq (r.query (codes "token")) [] then s.store else (verification s).1

  -- The request bears a key that the store verifies, names a registered agent, and is upgraded.
  abbrev IsWelcome : Server S → Type 0
  IsWelcome s =
      (r.query (codes "token") ≢ [])
      × ((k : ApiKey) × ((verification s).0 ≡ ok (some k)))
      × (r.query (codes "agent") ≢ [])
      × ((agent : ℕ) × (get (r.query (codes "agent")) s.agents ≡ some agent))
      × ((response : Bytes) × (upgrade_websocket services.sha1 services.base64 outcome r
            ≡ upgraded response))

  -- What became of a viewer's request.
  pub data ViewerAdmission (s : Server S) (out : Option (Response (Unit {0})) × Server S)
      : Type 0 where
    turned_away : ¬ IsWelcome s → out.1 ≡ record s { store = checked s } → ViewerAdmission s out
    joined :
        (agent : ℕ)
        → IsWelcome s
        → get (r.query (codes "agent")) s.agents ≡ some agent
        → out ≡ (
          none,
          connect_viewer services call conn
              (r.query (codes "agent"))
              agent
              (record s { store = (verification s).1 }),
        )
        → ViewerAdmission s out

  pub handle_viewer-ViewerAdmission :
      (s : Server S) → ViewerAdmission s (handle_viewer services call conn outcome r s)
  unfolding handle_viewer
  handle_viewer-ViewerAdmission s =
      if_rule (ViewerAdmission s) (text_eq token []) _ _
        (λ missing.
          turned_away (λ (given, _, _, _, _). given ((text_eq_iff token []).0 missing))
            (rw missing refl))
        λ present. from_store present (verification s) refl
    where
      token : Bytes
      token = r.query (codes "token")

      id : Bytes
      id = r.query (codes "agent")

      from_registry :
          text_eq (r.query (codes "token")) [] ≡ false
          → text_eq (r.query (codes "agent")) [] ≡ false
          → (k : ApiKey) (db : S) → verification s ≡ (ok (some k), db)
          → (o : Option ℕ) → get (r.query (codes "agent")) s.agents ≡ o
          → (u : Upgrade) → upgrade_websocket services.sha1 services.base64 outcome r ≡ u
          → ViewerAdmission s (elim o [
            | none ↦ (some (failed 404 (codes "agent not found")), record s { store = db })
            | some agent ↦ elim u [
              | upgraded response ↦ (
                none,
                connect_viewer services call conn
                    (r.query (codes "agent"))
                    agent
                    (record s { store = db }),
              )
              | other ↦ (none, record s { store = db })
            ]
          ])
      from_registry given named k db v none e _ u =
          turned_away (λ (_, _, _, (agent, here), _). absurd (cc)) (rw (given, v) refl)
      from_registry given named k db v (some agent) e (upgraded response) u =
          joined agent
            (
              λ none_given. ground (arith, given, text_eq_iff token []),
              (k, ap (λ p. p.0) v),
              λ unnamed. ground (arith, named, text_eq_iff id []),
              (agent, e),
              (response, u),
            )
            e (rw v refl)
      from_registry given named k db v (some agent) e (err x) u =
          turned_away (λ (_, _, _, _, (response, up)). absurd (cc)) (rw (given, v) refl)

      from_store :
          text_eq (r.query (codes "token")) [] ≡ false
          → (p : Store.Result (Option ApiKey) × S) → verification s ≡ p
          → ViewerAdmission s (
              if not (is_known p.0)
              then (some (failed 401 (codes "invalid API key")), record s { store = p.1 })
              else if text_eq (r.query (codes "agent")) []
              then (some (failed 400 (codes "agent parameter required")), record s { store = p.1 })
              else open_viewer services call conn outcome r
                  (r.query (codes "agent"))
                  (record s { store = p.1 }))
      from_store given (Store.err e, db) v =
          turned_away (λ (_, (k, known), _, _, _). absurd (cc)) (rw (given, v) refl)
      from_store given (ok none, db) v =
          turned_away (λ (_, (k, known), _, _, _). absurd (cc)) (rw (given, v) refl)
      from_store given (ok (some k), db) v =
          unfold open_viewer in
          if_rule (ViewerAdmission s) (text_eq (r.query (codes "agent")) []) _ _
            (λ unnamed.
              turned_away (λ (_, _, named, _, _). named ((text_eq_iff id []).0 unnamed))
                (rw (given, v) refl))
            λ named. from_registry given named k db v _ refl _ refl
