-- ===== src/Server/Enrollment.antt =====
-- cmd/server/handler_api.go, cmd/server/handler_agent.go: from an enrollment code to a registration, on
-- the SQLite store.
use rmm.Base.{
  ℕ, ◌≡◌, refl, ◌⊎◌, [], Bytes, codes, text_eq, not, Option, none, some, inl, inr, if_rule,
}
use rmm.Http.{Request, Response, failed, replied, error_json}
use rmm.Store.{Call, EnrollmentToken, Result, ok, err, StoreError}
use rmm.Store.Sqlite.{Tables, sqlite_store, create_agent, consume_enrollment_token}
use rmm.Security.Platform.{sign_credential, fingerprint}
use rmm.Security.Token.{hash_enrollment_code}
use rmm.Server.State.{Services, Server}
use rmm.Server.Api.{
  Reply, enrolled, present, EnrollRequest, enrolled_id, agent_rec, store_agent, after_consume,
  handle_enroll,
}

abbrev pub on_sqlite : Services Tables → Services Tables
on_sqlite services = record services { store = sqlite_store }

-- The answers that are given before a token is taken.
abbrev pub IsRefused : ℕ → Type 0
IsRefused status = (status ≡ 405) ⊎ ((status ≡ 400) ⊎ (status ≡ 403))

module _ (services : Services Tables) where
  -- What a request to enroll comes to: it is refused, or a token of the code is consumed and the
  -- agent is signed for and stored.
  pub data Enrollment (first second : Call) (body : Option EnrollRequest) (s : Server Tables)
      (out : Response Reply × Server Tables) : Type 0 where
    refused :
        (status : ℕ) (text : Bytes)
        → IsRefused status
        → out.0 ≡ failed status text
        → Enrollment first second body s out
    took :
        (req : EnrollRequest) (t : EnrollmentToken) (db : Tables)
        → body ≡ some req
        → consume_enrollment_token first
            (hash_enrollment_code services.sha256 req.code)
            (enrolled_id (on_sqlite services) s.platform req.code)
            s.store
          ≡ (ok (some t), db)
        → out
          ≡ store_agent
              (on_sqlite services)
              second
              (enrolled_id (on_sqlite services) s.platform req.code)
              req
              (record s { store = db })
        → Enrollment first second body s out

  -- Every request to enroll is refused with the status 405, 400 or 403, or a token of its code is
  -- consumed and the answer is that of the storing of the agent.
  pub handle_enroll-Enrollment :
      (first second : Call) (r : Request) (body : Option EnrollRequest) (s : Server Tables)
      → Enrollment first second body s (handle_enroll (on_sqlite services) first second r body s)
  unfolding handle_enroll sqlite_store
  handle_enroll-Enrollment first second r none s =
      if_rule (Enrollment first second none s) (not (text_eq r.meth (codes "POST"))) _ _
        (λ _. refused 405 _ (inl refl) refl) λ _. refused 400 _ (inr (inl refl)) refl
  handle_enroll-Enrollment first second r (some req) s =
      let P = Enrollment first second (some req) s in
      if_rule P (not (text_eq r.meth (codes "POST"))) _ _ (λ _. refused 405 _ (inl refl) refl)
        λ _.
          if_rule P (text_eq req.code []) _ _ (λ _. refused 400 _ (inr (inl refl)) refl)
            λ _.
              from_store
                (consume_enrollment_token first (hash_enrollment_code services.sha256 req.code)
                  (enrolled_id (on_sqlite services) s.platform req.code) s.store)
                refl
    where
      from_store :
          (p : Result (Option EnrollmentToken) × Tables)
          → consume_enrollment_token first
              (hash_enrollment_code services.sha256 req.code)
              (enrolled_id (on_sqlite services) s.platform req.code)
              s.store
            ≡ p
          → Enrollment first second (some req) s (
              after_consume
                (on_sqlite services)
                second
                (enrolled_id (on_sqlite services) s.platform req.code)
                req
                p.0
                (record s { store = p.1 }))
      from_store (err e, db) same = unfold after_consume in refused 403 _ (inr (inr refl)) refl
      from_store (ok none, db) same = unfold after_consume in refused 403 _ (inr (inr refl)) refl
      from_store (ok (some t), db) same = unfold after_consume in took req t db refl same refl

  -- What an answer with a credential says of the store.
  pub store_agent_inv :
      (call : Call) (agent_id : Bytes) (req : EnrollRequest) (s : Server Tables)
      (id cred fp : Bytes) (ca : Option Bytes)
      → (store_agent (on_sqlite services) call agent_id req s).0 ≡ replied (enrolled id cred fp ca)
      → let credential = sign_credential services.sha512 s.platform agent_id in
        let creation =
          create_agent call (agent_rec (on_sqlite services) call agent_id req credential) s.store in
        (id ≡ agent_id)
        × (cred ≡ credential)
        × (creation.0 ≡ ok tt)
        × ((store_agent (on_sqlite services) call agent_id req s).1
            ≡ record s { store = creation.1 })
  unfolding store_agent sqlite_store
  store_agent_inv call agent_id req s id cred fp ca e =
      from
        (create_agent call
          (agent_rec (on_sqlite services) call agent_id req
            (sign_credential services.sha512 s.platform agent_id))
          s.store)
        e
    where
      from :
          (p : Result (Unit {0}) × Tables)
          → let out : Response Reply × Server Tables = elim p.0 [
            | err x ↦
                (failed 500 (error_json (codes "enrollment failed")), record s { store = p.1 })
            | ok _ ↦ (
              replied (
                  enrolled agent_id
                    (sign_credential services.sha512 s.platform agent_id)
                    (fingerprint services.sha256 s.platform)
                    (present s.tls_ca)),
              record s { store = p.1 },
            )
          ] in
            out.0 ≡ replied (enrolled id cred fp ca)
            → (id ≡ agent_id)
              × (cred ≡ sign_credential services.sha512 s.platform agent_id)
              × (p.0 ≡ ok tt)
              × (out.1 ≡ record s { store = p.1 })
      from (err x, db) e = absurd (cc)
      from (ok tt, db) e = (cc, cc, refl, refl)

  -- Whatever is answered, the store is as the creation of the agent leaves it.
  pub store_agent_store :
      (call : Call) (agent_id : Bytes) (req : EnrollRequest) (s : Server Tables)
      → (store_agent (on_sqlite services) call agent_id req s).1.store
        ≡ (create_agent call
            (agent_rec
              (on_sqlite services)
              call
              agent_id
              req
              (sign_credential services.sha512 s.platform agent_id))
            s.store).1
  unfolding store_agent sqlite_store
  store_agent_store call agent_id req s = from _ _ (
      create_agent call
        (agent_rec (on_sqlite services) call agent_id req
          (sign_credential services.sha512 s.platform agent_id))
        s.store)
    where
      from :
          (x : StoreError → Response Reply) (y : Unit {0} → Response Reply)
          (p : Result (Unit {0}) × Tables)
          → let out : Response Reply × Server Tables = elim p.0 [
            | err e ↦ (x e, record s { store = p.1 })
            | ok u ↦ (y u, record s { store = p.1 })
          ] in
            out.1.store ≡ p.1
      from x y (err e, db) = refl
      from x y (ok u, db) = refl
