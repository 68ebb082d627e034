-- ===== src/Session/First.antt =====
-- cmd/agent and cmd/server: an agent enrolls and then registers.
use rmm.Base.{◌<◌, ◌≡◌, ◌≢◌, refl, ap, sym, ◌∙◌, [], ◌∷◌, ◌++◌, Bytes, codes, Option, some}
use rmm.Http.{Request, Response}
use rmm.Protocol.Frame.{Frame, op_text}
use rmm.Protocol.Message.{Message, Registration}
use rmm.Store.{Call, AgentRecord}
use rmm.Store.Sqlite.{Tables}
use rmm.Store.Consume.{IsUp}
use rmm.Server.State.{Services, Server}
use rmm.Server.Agent.{check_registration}
use rmm.Server.Api.{Reply, EnrollRequest, handle_enroll}
use rmm.Server.Enrollment.{on_sqlite}
use rmm.Server.FirstContact.{enroll_then_register}
use rmm.Client.State.{System, Agent, new_agent, register}
use rmm.Client.Program.{Json, Host, AgentTls, AgentFlags, base_url, enroll_body, connecting, start}
use rmm.Client.Program.Restart.{start-Enrolled, new_agent_credential}
use rmm.Session.{Wire, Agrees, request_of, registration}
use rmm.Session.Answers.{handle_enroll-Answer, enroll-Answered, kept_credential}

abbrev register_message : System → Agent → Message
register_message system agent = record {
  kind = codes "register";
  payload = system.to_json (registration system agent);
}

abbrev register_frame : System → Agent → Frame
register_frame system agent = record {
  opcode = op_text;
  payload = system.encode_message (register_message system agent);
}

first_frame :
    (system : System) (agent : Agent) (name credential : Bytes)
    → agent ≡ new_agent name credential
    → (register system agent).sent ≡ register_frame system agent ∷ []
unfolding register new_agent
first_frame system agent name credential e =
    ap (λ (a : Agent). register_frame system agent ∷ a.sent) e

module _ (services : Services Tables) (json : Json) (system : System) (wire : Wire) where
  -- An agent that is started with -enroll, whose request the server answers with handleEnroll, and that
  -- reaches its loop with the answer, then sends one frame to register, and with this frame it passes all
  -- checks of handleAgent against the server as the enrollment left it: it is found under the name of
  -- its request, and registers with the credential that it keeps. The store is the SQLite store, which
  -- does not fail at the registration.
  pub first_session :
      (host : Host) (flags : AgentFlags) (first second later : Call) (r : Request)
      (s : Server Tables) (url : Bytes) (tls : Option AgentTls) (agent : Agent)
      (file : Option Bytes)
      → Agrees services json system wire
          (enroll_body host flags.enroll flags.name)
          (registration system agent)
      → 0 < services.sha256.size
      → IsUp later
      → let out : Bytes → Response Reply × Server Tables =
          λ body. handle_enroll (on_sqlite services) first second r (wire.decode_body body) s in
        let body = json.encode_body (enroll_body host flags.enroll flags.name) in
        host.post flags.insecure (base_url flags.server ++ codes "/api/enroll") body
          ≡ some (wire.encode_reply (out body).0)
        → flags.enroll ≢ []
        → start json host flags ≡ connecting url tls agent file
        → (f : Frame) × (a : AgentRecord) × (reg : Registration) × ((register system agent).sent
            ≡ f ∷ [])
          × (a.name ≡ (enroll_body host flags.enroll flags.name).name)
          × (reg.credential ≡ agent.credential)
          × (check_registration
                (on_sqlite services)
                later
                (out body).1.platform
                (out body).1.store
                (some f)
              ≡ some (a, reg))
  first_session host flags first second later r s url tls agent file laws positive up posted asked
        started =
      let body = enroll_body host flags.enroll flags.name in
      let w = start-Enrolled json host flags url tls agent file asked started in
      let (id, cred, fp, ca, answer, kept) =
        kept_credential services json system wire host _ w.cfg laws
          (handle_enroll-Answer services first second r _ s)
          (enroll-Answered json host flags.server flags.enroll flags.name flags.insecure _ w.cfg
            posted w.answered) in
      let credential : agent.credential ≡ cred =
        ap (λ (a : Agent). a.credential) w.same_agent
        ∙ (new_agent_credential flags.name w.cfg.credential ∙ kept) in
      let out : Option EnrollRequest → Response Reply × Server Tables =
        λ o. handle_enroll (on_sqlite services) first second r o s in
      let same = laws.body_read in
      let (a, _, name, passes) =
        enroll_then_register services first second later r (request_of body) s id cred fp ca
          (register_frame system agent) (register_message system agent) (registration system agent)
          positive up (ap (λ o. (out o).0) (sym same) ∙ answer) refl laws.message_read refl
          laws.registration_read credential in
      (
        register_frame system agent,
        a,
        registration system agent,
        first_frame system agent flags.name w.cfg.credential w.same_agent,
        name,
        refl,
        ap
              (λ o.
                check_registration (on_sqlite services) later (out o).1.platform (out o).1.store
                  (some (register_frame system agent)))
              same
            ∙ passes,
      )
