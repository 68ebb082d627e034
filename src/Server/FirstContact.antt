-- ===== src/Server/FirstContact.antt =====
-- cmd/server: an enrolled agent registers, and a spent code enrolls nobody, on the SQLite store.
use rmm.Base.{
  ℕ, ◌*◌, ◌<◌, ◌≡◌, refl, ap, sym, ◌∙◌, ◌≢◌, List, [], ◌∷◌, Bytes, codes, Option, some, arith, inl,
  inr, take, length, All,
}
use rmm.Http.{Request, Response, failed, replied}
use rmm.Protocol.Frame.{Frame, op_text}
use rmm.Protocol.Message.{Message, Registration}
use rmm.Store.{Call, AgentRecord, EnrollmentToken, Result, ok}
use rmm.Store.Sqlite.{Tables, sqlite_store, create_agent, consume_enrollment_token}
use rmm.Store.Consume.{IsUp}
use rmm.Store.History.{Operation, creates_agent, step, run}
use rmm.Store.SingleUse.{KeepsTokens, consume_once_in_history}
use rmm.Store.Lookup.{get_agent-create_agent, in_seconds}
use rmm.Security.Hex.{length-encode}
use rmm.Security.Platform.{Platform, sign_credential}
use rmm.Security.Platform.Credential.{verify_credential-sign_credential}
use rmm.Security.Token.{hash_api_key, hash_code, hash_enrollment_code}
use rmm.Server.State.{Services, Server}
use rmm.Server.Agent.{check_registration}
use rmm.Server.Api.{Reply, enrolled, EnrollRequest, enrolled_id, agent_rec, handle_enroll}
use rmm.Server.Admission.{Proof, check_registration_iff}
use rmm.Server.Enrollment.{
  on_sqlite, IsRefused, Enrollment, handle_enroll-Enrollment, store_agent_inv, store_agent_store,
}

some-injective : {q q' : EnrollRequest} → some q ≡ some q' → q ≡ q'
some-injective e = cc

clash : {status : ℕ} {why : Bytes} {b : Reply} → failed status why ≢ replied b
clash e = cc

module _ (services : Services Tables) where
  enrolled_id_present :
      (s : Server Tables) (code : Bytes)
      → 0 < services.sha256.size
      → enrolled_id (on_sqlite services) s.platform code ≢ []
  unfolding enrolled_id hash_api_key hash_code
  enrolled_id_present s code positive e =
      nonempty _
        (length-encode (services.sha256.sum _) ∙ ap (λ n. 2 * n) (services.sha256.length-sum _)) e
    where
      nonempty : (text : Bytes) → length text ≡ 2 * services.sha256.size → take 16 text ≢ []
      nonempty [] long short = ground arith
      nonempty (c ∷ text) long short = absurd (cc)

  -- An agent that was answered with a credential and registers with it, in a text frame that decodes to a
  -- "register" message with that credential, passes every check against the server as it then is: it is
  -- found under the ID it was given and the name it asked for.
  pub enroll_then_register :
      (first second later : Call) (r : Request) (req : EnrollRequest) (s : Server Tables)
      (id cred fp : Bytes) (ca : Option Bytes) (f : Frame) (msg : Message) (reg : Registration)
      → 0 < services.sha256.size
      → IsUp later
      → let out = handle_enroll (on_sqlite services) first second r (some req) s in
        out.0 ≡ replied (enrolled id cred fp ca)
        → f.opcode ≡ op_text
        → services.decode_message f.payload ≡ some msg
        → msg.kind ≡ codes "register"
        → services.decode_registration msg.payload ≡ some reg
        → reg.credential ≡ cred
        → (a : AgentRecord) × (a.id ≡ id)
          × (a.name ≡ req.name)
          × (check_registration (on_sqlite services) later out.1.platform out.1.store (some f)
              ≡ some (a, reg))
  enroll_then_register first second later r req s id cred fp ca f msg reg positive up answer text
        decoded register decoded_reg same_cred =
      elim (handle_enroll-Enrollment services first second r (some req) s) [
        | Enrollment.refused status why _ refused ↦ absurd (clash (sym refused ∙ answer))
        | Enrollment.took req' t db same_req consumed same_out ↦
            let agent_id = enrolled_id (on_sqlite services) s.platform req'.code in
            let s₁ : Server Tables = record s { store = db } in
            let (same_id, credential, created, after) =
              store_agent_inv services second agent_id req' s₁ id cred fp ca
                (ap (λ o. o.0) (sym same_out) ∙ answer) in
            let a : AgentRecord =
              agent_rec (on_sqlite services) second agent_id req'
                (sign_credential services.sha512 s.platform agent_id) in
            let (known, _) = get_agent-create_agent second later a db created up in
            let whole : reg.credential ≡ sign_credential services.sha512 s.platform agent_id =
              same_cred ∙ credential in
            let final = ap (λ (o : Response Reply × Server Tables). o.1) same_out ∙ after in
            (
              in_seconds a,
              sym same_id,
              sym (ap (λ (q : EnrollRequest). q.name) (some-injective same_req)),
              passes (ap (λ (z : Server Tables). z.platform) final)
                  (ap (λ (z : Server Tables). z.store) final)
                  (record {
                    read = f;
                    msg = msg;
                    agent_id = agent_id;
                    frame_read = refl;
                    is_text = text;
                    decoded = decoded;
                    is_register = register;
                    decoded_registration = decoded_reg;
                    is_signed = rw whole (
                        verify_credential-sign_credential services.sha512 s.platform agent_id
                          (enrolled_id_present s req'.code positive));
                    is_enrolled = unfold sqlite_store in rw whole known;
                  }),
            )
      ]
    where
      passes :
          {p p' : Platform} {db db' : Tables} {a : AgentRecord}
          → p ≡ p'
          → db ≡ db'
          → Proof (on_sqlite services) later p' db' (some f) a reg
          → check_registration (on_sqlite services) later p db (some f) ≡ some (a, reg)
      passes e e' proof =
          rw (e, e')
            ((check_registration_iff (on_sqlite services) later _ _ (some f) _ reg).1 proof)

  -- The answers that spend a code: a credential, or the failure to store the agent.
  pub data Spends : Response Reply → Type 0 where
    with_credential :
        (id cred fp : Bytes) (ca : Option Bytes) → Spends (replied (enrolled id cred fp ca))
    with_failure : (text : Bytes) → Spends (failed 500 text)

  -- A request that was answered with a credential, or with the status 500 since the agent could not be
  -- stored, has spent its code: after any history of calls of the store that deletes no token, no
  -- request with a code of that hash is answered with a credential.
  pub spent_code :
      (first second third fourth : Call) (r r' : Request) (req req' : EnrollRequest)
      (s s' : Server Tables) (cs : List (Call × Operation))
      → let out = handle_enroll (on_sqlite services) first second r (some req) s in
        Spends out.0
        → s'.store ≡ run out.1.store cs
        → All KeepsTokens cs
        → hash_enrollment_code services.sha256 req'.code
          ≡ hash_enrollment_code services.sha256 req.code
        → (b : Reply)
        → (handle_enroll (on_sqlite services) third fourth r' (some req') s').0 ≢ replied b
  spent_code first second third fourth r r' req req' s s' cs spends history keeps same_code b
        again =
      elim (handle_enroll-Enrollment services first second r (some req) s) [
        | Enrollment.refused status why which refused ↦
            absurd (unspent which (rw refused at spends))
        | Enrollment.took q t db same consumed same_out ↦
            elim (handle_enroll-Enrollment services third fourth r' (some req') s') [
              | Enrollment.refused status why _ refused ↦ clash (sym refused ∙ again)
              | Enrollment.took q' t' db' same' consumed' _ ↦
                  let agent_id = enrolled_id (on_sqlite services) s.platform q.code in
                  let a : AgentRecord =
                    agent_rec (on_sqlite services) second agent_id q
                      (sign_credential services.sha512 s.platform agent_id) in
                  let stored =
                    ap (λ (o : Response Reply × Server Tables). o.1.store) same_out
                    ∙ store_agent_store services second agent_id q (record s { store = db }) in
                  consume_once_in_history first third (hash_enrollment_code services.sha256 q.code)
                    agent_id _ s.store t t' ((second, creates_agent a) ∷ cs)
                    (ap (λ p. p.0) consumed) (tt, keeps)
                    (ap
                        (λ d.
                          (consume_enrollment_token third
                            (hash_enrollment_code services.sha256 q.code)
                            (enrolled_id (on_sqlite services) s'.platform q'.code) d).0)
                        (sym (later_store a db consumed stored))
                      ∙ (ap
                            (λ h.
                              (consume_enrollment_token third h
                                (enrolled_id (on_sqlite services) s'.platform q'.code) s'.store).0)
                            (sym (codes_agree same same'))
                          ∙ ap (λ p. p.0) consumed'))
            ]
      ]
    where
      codes_agree :
          {q q' : EnrollRequest}
          → ◌≡◌ {A = Option EnrollRequest} (some req) (some q)
          → ◌≡◌ {A = Option EnrollRequest} (some req') (some q')
          → hash_enrollment_code services.sha256 q'.code
            ≡ hash_enrollment_code services.sha256 q.code
      codes_agree e e' =
          let hash : EnrollRequest → Bytes = λ q. hash_enrollment_code services.sha256 q.code in
          sym (ap hash (some-injective e')) ∙ (same_code ∙ ap hash (some-injective e))

      later_store :
          (a : AgentRecord) (db : Tables) {p : Result (Option EnrollmentToken) × Tables}
          {t : EnrollmentToken}
          → p ≡ (ok (some t), db)
          → (handle_enroll (on_sqlite services) first second r (some req) s).1.store
            ≡ (create_agent second a db).1
          → s'.store ≡ run p.1 ((second, creates_agent a) ∷ cs)
      later_store a db consumed stored =
          unfold run step in
          history
          ∙ ap (λ d. run d cs)
              (stored ∙ ap (λ d. (create_agent second a d).1) (sym (ap (λ p. p.1) consumed)))

      unspent : {status : ℕ} {why : Bytes} → IsRefused status → Spends (failed status why) → ⊥
      unspent (inl e) (with_failure _) = ground arith
      unspent (inr (inl e)) (with_failure _) = ground arith
      unspent (inr (inr e)) (with_failure _) = ground arith
