-- ===== src/Tests/Enrollment.antt =====
-- An enrollment over the SQLite store, from the code to the registration.
use rmm.Base.{◌≡◌, ◌≢◌, ◌↔◌, refl, List, [], ◌∷◌, Bytes, codes, text_eq, none, some}
use rmm.Http.{Request, Response, replied}
use rmm.Protocol.Frame.{Frame, op_text}
use rmm.Store.{Call}
use rmm.Store.Table.{find_row}
use rmm.Store.Sqlite.{
  Tables, sqlite_store, token_row, consume_enrollment_token, consume_row, create_agent, mark_used,
}
use rmm.Store.History.{Operation, sees_agent, run}
use rmm.Security.Hex.{encode}
use rmm.Security.Platform.{sign_credential, fingerprint}
use rmm.Security.Token.{hash_enrollment_code, hash_code, remove_dashes}
use rmm.Go.Strings.{trim_space, trim_left}
use rmm.Server.State.{Server, new_server}
use rmm.Server.Agent.{check_registration, handle_agent}
use rmm.Server.Api.{
  enrolled, Reply, EnrollRequest, enrolled_id, store_agent, after_consume, handle_enroll,
}
use rmm.Server.Enrollment.{on_sqlite}
use rmm.Server.FirstContact.{with_credential, spent_code}
use rmm.Base.Map.{get, nat_eq, bytes_eq}
use rmm.Server.Steps.{starts, steps, agent_opens, enrolls}
use rmm.Server.Handlers.{IsConsistent}
use rmm.Server.Consistency.{Reachable-IsConsistent}
use rmm.Server.Admission.{Admission, Proof, check_registration_iff}
use rmm.Server.Upgrade.{hijacked}
use rmm.Tests.Samples.{
  checksum, agent_rec, platform, call, token, upgrade_request, services, registration_of,
}

abbrev pub post : Request
post = record upgrade_request { meth = codes "POST" }

abbrev enroll_request : EnrollRequest
enroll_request = record {
  code = codes "abcd";
  name = codes "desk";
  hostname = codes "desk.local";
  os = codes "linux";
  arch = codes "amd64";
}

abbrev pub ready : Server Tables
ready =
    new_server
      (record {
        agents = [];
        enrollment_tokens =
            token_row (record token { code_hash = hash_enrollment_code checksum (codes "abcd") })
            ∷ [];
        api_keys = [];
      })
      platform none

abbrev pub id : Bytes
id = enrolled_id (on_sqlite services) platform (codes "abcd")

abbrev pub credential : Bytes
credential = sign_credential checksum platform id

abbrev done : Response Reply × Server Tables
done = handle_enroll (on_sqlite services) call call post (some enroll_request) ready

abbrev history : List (Call × Operation)
history = (call, sees_agent id 6_000_000_000) ∷ []

abbrev later_server : Server Tables
later_server = record done.1 { store = run done.1.store history }

spent_code_example :
    (handle_enroll
      (on_sqlite services)
      call
      call
      post
      (some (record enroll_request { code = codes "AB-CD" }))
      later_server).0
    ≢ replied (enrolled id credential (fingerprint checksum platform) none)
unfolding handle_enroll text_eq new_server sqlite_store consume_enrollment_token consume_row
    find_row after_consume store_agent create_agent mark_used hash_enrollment_code hash_code encode
    remove_dashes trim_space trim_left
spent_code_example =
    spent_code services call call call call post post enroll_request
      (record enroll_request { code = codes "AB-CD" }) ready later_server history
      (with_credential id credential (fingerprint checksum platform) none) refl (tt, tt) refl
      (enrolled id credential (fingerprint checksum platform) none)

abbrev first_frame : Frame
first_frame = record { opcode = op_text; payload = b'r' ∷ credential }

check_registration_iff_example :
    (check_registration (on_sqlite services) call platform done.1.store (some first_frame)
      ≡ some (agent_rec, registration_of credential))
    ↔ Proof
        (on_sqlite services)
        call
        platform
        done.1.store
        (some first_frame)
        agent_rec
        (registration_of credential)
check_registration_iff_example =
    check_registration_iff (on_sqlite services) call platform done.1.store (some first_frame)
      agent_rec (registration_of credential)

abbrev met : Server Tables
met =
    (handle_agent (on_sqlite services) call 1 hijacked upgrade_request (some first_frame) done.1).1

unknown : get 1 done.1.live ≡ none
unfolding get new_server handle_enroll sqlite_store consume_enrollment_token consume_row find_row
    text_eq after_consume store_agent create_agent mark_used hash_enrollment_code hash_code encode
    remove_dashes trim_space trim_left
unknown = refl

Reachable-IsConsistent_example : IsConsistent met
unfolding new_server
Reachable-IsConsistent_example =
    Reachable-IsConsistent (on_sqlite services) ready.store platform none met (
      steps (steps starts (enrolls call call post (some enroll_request)))
        (agent_opens call 1 hijacked upgrade_request (some first_frame) unknown))
