-- ===== src/Session.antt =====
-- cmd/agent and cmd/server together: what the two programs exchange, from the enrollment to a picture.
pub mod Answers
pub mod First
pub mod Viewers
pub mod Picture
use rmm.Base.{
  ℕ, ◌<◌, ◌≡◌, ◌≢◌, refl, ap, sym, ◌∙◌, [], ◌∷◌, ◌++◌, Bytes, codes, Option, none, some, arith, inl,
  inr, Bool, Bool-cases, ◌==◌, not, if◌then◌else◌,
}
use mathlib.Core.Path.{subst}
use rmm.Http.{Request, Response, failed, replied}
use rmm.Protocol.Frame.{Frame, op_text}
use rmm.Protocol.Message.{Message, Registration}
use rmm.Store.{Call, AgentRecord, Result, ok, err, StoreError}
use rmm.Store.Sqlite.{Tables}
use rmm.Store.Consume.{IsUp}
use rmm.Server.State.{Services, Server}
use rmm.Server.Agent.{check_registration}
use rmm.Server.Api.{Reply, enrolled, EnrollRequest, store_agent, handle_enroll}
use rmm.Server.Enrollment.{on_sqlite, IsRefused, Enrollment, handle_enroll-Enrollment}
use rmm.Server.FirstContact.{enroll_then_register}
use rmm.Client.State.{System, Agent, new_agent, register}
use rmm.Client.Program.{
  AgentConfig, Json, Host, HttpReply, EnrollBody, EnrollResult, AgentTls, AgentFlags, base_url,
  enroll_body, config_of, enroll, connecting, start,
}
use rmm.Client.Program.Restart.{start-Enrolled, new_agent_credential}

-- What encoding/json and net/http make of the values that the two programs exchange.
pub record Wire : Type 0 where
  pub decode_body : Bytes → Option EnrollRequest
  pub encode_reply : Response Reply → HttpReply

-- The same fields, on the side of the server.
abbrev pub request_of : EnrollBody → EnrollRequest
request_of b = record {
  code = b.code;
  name = b.name;
  hostname = b.hostname;
  os = b.os;
  arch = b.arch;
}

-- A certificate that is left out is read as the empty text.
abbrev pub or_empty : Option Bytes → Bytes
or_empty none = []
or_empty (some text) = text

-- What one program encodes of `body`, of its answer and of `reg` the other decodes; http.Error sends the
-- status that it is given.
pub record Agrees (services : Services Tables) (json : Json) (system : System) (wire : Wire)
    (body : EnrollBody) (reg : Registration) : Type 0 where
  pub body_read : wire.decode_body (json.encode_body body) ≡ some (request_of body)
  pub status_sent :
      (status : ℕ) (why : Bytes) → (wire.encode_reply (failed status why)).status_code ≡ status
  pub result_read :
      (id cred fp : Bytes) (ca : Option Bytes)
      → json.decode_result (wire.encode_reply (replied (enrolled id cred fp ca))).body
        ≡ some
            (record { agent_id = id; credential = cred; fingerprint = fp; ca_cert = or_empty ca })
  pub message_read :
      let msg : Message = record { kind = codes "register"; payload = system.to_json reg } in
      services.decode_message (system.encode_message msg) ≡ some msg
  pub registration_read : services.decode_registration (system.to_json reg) ≡ some reg

-- What an agent says of itself when it registers, and the frame that says it.
abbrev pub registration : System → Agent → Registration
registration system agent = record (system.system_info agent.name) { credential = agent.credential }
