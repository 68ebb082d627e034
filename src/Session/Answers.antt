-- ===== src/Session/Answers.antt =====
-- cmd/agent/main.go and cmd/server/handler_api.go: what the agent keeps of an answer to its enrollment.
use rmm.Base.{
  ℕ, ◌≡◌, ◌≢◌, refl, ap, sym, ◌∙◌, ◌++◌, Bytes, codes, Option, none, some, arith, inl, inr, Bool,
  Bool-cases, ◌==◌, not, if◌then◌else◌,
}
use mathlib.Core.Path.{subst}
use rmm.Http.{Request, Response, failed, replied}
use rmm.Protocol.Message.{Registration}
use rmm.Store.{Call, Result, ok, err, StoreError}
use rmm.Store.Sqlite.{Tables}
use rmm.Server.State.{Services, Server}
use rmm.Server.Api.{Reply, enrolled, EnrollRequest, store_agent, handle_enroll}
use rmm.Server.Enrollment.{on_sqlite, IsRefused, Enrollment, handle_enroll-Enrollment}
use rmm.Client.State.{System}
use rmm.Client.Program.{
  AgentConfig, Json, Host, HttpReply, EnrollBody, EnrollResult, base_url, enroll_body, config_of,
  enroll,
}
use rmm.Session.{Wire, Agrees}

-- What a request to enroll can be answered: a failure, or a credential.
pub data Answer : Response Reply → Type 0 where
  failure : (status : ℕ) (why : Bytes) → status ≢ 200 → Answer (failed status why)
  with_credential :
      (id cred fp : Bytes) (ca : Option Bytes) → Answer (replied (enrolled id cred fp ca))

module _ (services : Services Tables) where
  store_agent-Answer :
      (call : Call) (id : Bytes) (req : EnrollRequest) (s : Server Tables)
      → Answer (store_agent (on_sqlite services) call id req s).0
  unfolding store_agent
  store_agent-Answer call id req s =
      from _ _ _ (λ e. failure 500 _ (ground arith)) λ u. with_credential id _ _ _
    where
      from :
          (x : StoreError → Response Reply × Server Tables)
          (y : Unit {0} → Response Reply × Server Tables) (o : Result (Unit {0}))
          → ((e : StoreError) → Answer (x e).0)
          → ((u : Unit {0}) → Answer (y u).0)
          → let out : Response Reply × Server Tables = elim o [ err e ↦ x e | ok u ↦ y u ] in
            Answer out.0
      from x y (err e) f g = f e
      from x y (ok u) f g = g u

  pub handle_enroll-Answer :
      (first second : Call) (r : Request) (body : Option EnrollRequest) (s : Server Tables)
      → Answer (handle_enroll (on_sqlite services) first second r body s).0
  handle_enroll-Answer first second r body s =
      elim (handle_enroll-Enrollment services first second r body s) [
        | Enrollment.refused status why which refused ↦
            subst Answer (sym refused) (failure status why (unequal which))
        | Enrollment.took req t db _ _ same_out ↦
            subst Answer (sym (ap (λ o. o.0) same_out)) (store_agent-Answer second _ req _)
      ]
    where
      unequal : {status : ℕ} → IsRefused status → status ≢ 200
      unequal (inl e) same = ground arith
      unequal (inr (inl e)) same = ground arith
      unequal (inr (inr e)) same = ground arith

module _ (json : Json) (host : Host) where
  -- What an enrollment that succeeded was answered.
  pub record Answered (reply : HttpReply) (cfg : AgentConfig) : Type 0 where
    result : EnrollResult
    is_ok : reply.status_code ≡ 200
    decoded : json.decode_result reply.body ≡ some result
    same_credential : cfg.credential ≡ result.credential

  config_of_inv :
      (base : Bytes) (o : Option EnrollResult) (cfg : AgentConfig)
      → config_of base o ≡ some cfg
      → (result : EnrollResult) × (o ≡ some result) × (cfg.credential ≡ result.credential)
  unfolding config_of
  config_of_inv base none cfg e = absurd (cc)
  config_of_inv base (some result) cfg e = (result, refl, cc)

  pub enroll-Answered :
      (server code name : Bytes) (insecure : Bool) (reply : HttpReply) (cfg : AgentConfig)
      → host.post insecure
          (base_url server ++ codes "/api/enroll")
          (json.encode_body (enroll_body host code name))
        ≡ some reply
      → enroll json host server code name insecure ≡ some cfg
      → Answered reply cfg
  unfolding enroll
  enroll-Answered server code name insecure reply cfg posted e =
      elim (Bool-cases (reply.status_code == 200)) [
        | inl fine ↦
            let (result, decoded, credential) =
              config_of_inv (base_url server) (json.decode_result reply.body) cfg
                (rw fine at after_post) in
            record {
              result = result;
              is_ok = ground (arith, fine);
              decoded = decoded;
              same_credential = credential;
            }
        | inr other ↦ absurd (clash (rw other at after_post))
      ]
    where
      after_post :
          (if not (reply.status_code == 200)
            then none
            else config_of (base_url server) (json.decode_result reply.body))
          ≡ some cfg
      after_post =
          ap
            (λ (o : Option HttpReply). elim o as (λ _. Option AgentConfig) [
              | none ↦ none
              | some reply ↦
                  if not (reply.status_code == 200)
                  then none
                  else config_of (base_url server) (json.decode_result reply.body)
            ])
            (sym posted)
          ∙ e

      clash : ◌≢◌ {A = Option AgentConfig} none (some cfg)
      clash h = cc

module _ (services : Services Tables) (json : Json) (system : System) (wire : Wire) where
  -- An answer from which the agent made a configuration is a credential, the one it keeps.
  pub kept_credential :
      {body : EnrollBody} {reg : Registration} (host : Host) (o : Response Reply)
      (cfg : AgentConfig)
      → Agrees services json system wire body reg
      → Answer o
      → Answered json host (wire.encode_reply o) cfg
      → (id : Bytes) × (cred : Bytes) × (fp : Bytes) × (ca : Option Bytes) × (o
          ≡ replied (enrolled id cred fp ca))
        × (cfg.credential ≡ cred)
  kept_credential host _ cfg laws (failure status why unequal) answered =
      absurd (unequal (sym (laws.status_sent status why) ∙ answered.is_ok))
  kept_credential host _ cfg laws (with_credential id cred fp ca) answered = (
    id,
    cred,
    fp,
    ca,
    refl,
    cc (answered.same_credential, answered.decoded, laws.result_read id cred fp ca),
  )
