-- ===== src/Tests/Session.antt =====
-- The first session of an agent, from its code to its registration.
use rmm.Base.{refl, [], ◌∷◌, Bytes, codes, ◌≡◌, Option, none, true, some, arith, text_eq}
use rmm.Go.Os.{succeeds, write_file}
use rmm.Go.Strings.{
  has_prefix, trim_byte_right, trim_byte_left, replace_first, cut, index, trim_space, trim_left,
}
use rmm.Http.{Response, failed, replied}
use rmm.Protocol.Frame.{Frame}
use rmm.Protocol.Message.{Registration}
use rmm.Store.{AgentRecord}
use rmm.Server.Agent.{check_registration}
use rmm.Server.Api.{Reply, enrolled, handle_enroll, store_agent, after_consume, enrolled_id}
use rmm.Security.Platform.{sign_credential, agent_mac, fingerprint}
use rmm.Security.Hmac.{hmac_sha512}
use rmm.Server.Enrollment.{on_sqlite}
use rmm.Client.State.{System, Agent, new_agent, register}
use rmm.Client.Program.{
  Json, Host, HttpReply, AgentFlags, AgentTls, start, connecting, enroll_body, enroll, base_url,
  to_ws, config_of, after_enroll, save_config, connect, build_tls_config,
}
use rmm.Security.Tls.{tls13}
use rmm.Security.Hex.{encode}
use rmm.Security.Token.{hash_enrollment_code, hash_code, hash_api_key, remove_dashes}
use rmm.Server.State.{Server, new_server}
use rmm.Store.Table.{find_row}
use rmm.Store.Sqlite.{
  Tables, sqlite_store, consume_enrollment_token, consume_row, create_agent, mark_used,
}
use rmm.Session.{Wire, or_empty, Agrees, registration}
use rmm.Session.First.{first_session}
use rmm.Tests.Enrollment.{post, ready, id, credential}
use rmm.Tests.Samples.{
  pack, first, rest, first-pack, rest-pack, call, call-IsUp, services, registration_of,
}

abbrev json : Json
json = record {
  encode_config = λ cfg. cfg.credential;
  decode_config = λ text. none;
  encode_body = λ body.
      pack body.code (pack body.name (pack body.hostname (pack body.os (pack body.arch []))));
  decode_result = λ text. some (record {
    agent_id = first text;
    credential = first (rest text);
    fingerprint = first (rest (rest text));
    ca_cert = first (rest (rest (rest text)));
  });
}

abbrev encode_reply : Response Reply → HttpReply
encode_reply (failed status why) = record { status_code = status; body = why }
encode_reply (replied (enrolled id cred fp ca)) = record {
  status_code = 200;
  body = pack id (pack cred (pack fp (pack (or_empty ca) [])));
}
encode_reply (replied other) = record { status_code = 200; body = [] }

abbrev wire : Wire
wire = record {
  decode_body = λ text. some (record {
    code = first text;
    name = first (rest text);
    hostname = first (rest (rest text));
    os = first (rest (rest (rest text)));
    arch = first (rest (rest (rest (rest text))));
  });
  encode_reply = encode_reply;
}

abbrev system : System
system = record {
  decode_message = λ payload. none;
  encode_message = λ m. b'r' ∷ m.payload;
  decode_input = λ payload. none;
  decode_display = λ payload. none;
  encode_switched = λ display count. [];
  system_info = λ name. registration_of [];
  to_json = λ reg. reg.credential;
  display_count = 1;
}

abbrev laptop : Host
laptop = record {
  hostname = codes "desk";
  goos = codes "linux";
  goarch = codes "amd64";
  post = λ insecure url body. some (
      encode_reply
        (handle_enroll (on_sqlite services) call call post (wire.decode_body body) ready).0);
  config_file = none;
  dir_made = true;
  config_write = succeeds;
}

abbrev flags : AgentFlags
flags = record { server = codes "hub:8443"; enroll = codes "abcd"; name = []; insecure = true }

abbrev agent : Agent
agent = new_agent [] credential

abbrev tls : Option AgentTls
tls = some (record { min_version = tls13; root_cas = none; insecure_skip_verify = true })

started : start json laptop flags ≡ connecting (codes "wss://hub:8443") tls agent (some credential)
unfolding start enroll base_url trim_byte_right trim_byte_left has_prefix to_ws replace_first cut
    index config_of after_enroll save_config write_file connect build_tls_config text_eq enroll_body
    handle_enroll new_server sqlite_store consume_enrollment_token consume_row find_row
    after_consume store_agent create_agent mark_used hash_enrollment_code hash_code encode
    remove_dashes trim_space trim_left enrolled_id sign_credential hash_api_key agent_mac
    hmac_sha512 fingerprint
started = refl

agrees :
    Agrees services json system wire
      (enroll_body laptop (codes "abcd") [])
      (registration system agent)
agrees = record {
  body_read = simp (first-pack, rest-pack) refl;
  status_sent = λ status why. refl;
  result_read = λ id cred fp ca. simp (first-pack, rest-pack) refl;
  message_read = refl;
  registration_read = refl;
}

abbrev out : Bytes → Response Reply × Server Tables
out body = handle_enroll (on_sqlite services) call call post (wire.decode_body body) ready

first_session_example :
    (f : Frame) × (a : AgentRecord) × (reg : Registration) × ((register system agent).sent ≡ f ∷ [])
    × (a.name ≡ (enroll_body laptop flags.enroll flags.name).name)
    × (reg.credential ≡ agent.credential)
    × (check_registration
          (on_sqlite services)
          call
          (out (json.encode_body (enroll_body laptop flags.enroll flags.name))).1.platform
          (out (json.encode_body (enroll_body laptop flags.enroll flags.name))).1.store
          (some f)
        ≡ some (a, reg))
first_session_example =
    first_session services json system wire laptop flags call call call post ready
      (codes "wss://hub:8443") tls agent (some credential) agrees (omega arith) call-IsUp refl
      (ground arith) started
