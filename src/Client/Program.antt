-- ===== src/Client/Program.antt =====
-- cmd/agent/main.go: the configuration file, the enrollment over HTTPS, and main up to its loop.
-- encoding/json and the exchange over HTTP are parameters.
pub mod Urls
pub mod Restart
use rmm.Base.{
  ℕ, [], ◌∷◌, ◌++◌, Bytes, codes, ◌==◌, text_eq, if◌then◌else◌, Bool, true, false, not, Option,
  none, some,
}
use rmm.Go.Strings.{has_prefix, trim_byte_right, replace_first}
use rmm.Go.Os.{Write, write_file}
use rmm.Security.Tls.{tls13}
use rmm.Client.State.{Agent, new_agent}

pub record AgentConfig : Type 0 where
  pub server_url : Bytes
  pub agent_id : Bytes
  pub credential : Bytes
  pub ca_cert : Bytes
  pub fingerprint : Bytes

-- The body of the request to enroll.
pub record EnrollBody : Type 0 where
  pub code : Bytes
  pub name : Bytes
  pub hostname : Bytes
  pub os : Bytes
  pub arch : Bytes

pub record EnrollResult : Type 0 where
  pub agent_id : Bytes
  pub credential : Bytes
  pub fingerprint : Bytes
  pub ca_cert : Bytes

pub record HttpReply : Type 0 where
  pub status_code : ℕ
  pub body : Bytes

-- encoding/json: none is an error.
pub record Json : Type 0 where
  pub encode_config : AgentConfig → Bytes
  pub decode_config : Bytes → Option AgentConfig
  pub encode_body : EnrollBody → Bytes
  pub decode_result : Bytes → Option EnrollResult

-- What the host and the network answer. The file is the configuration, none where it is missing or
-- cannot be read; `post` is the request without verification of the certificate, if so wished.
pub record Host : Type 0 where
  pub hostname : Bytes
  pub goos : Bytes
  pub goarch : Bytes
  pub post : Bool → Bytes → Bytes → Option HttpReply
  pub config_file : Option Bytes
  pub dir_made : Bool
  pub config_write : Write

unfoldable pub load_config : Json → Option Bytes → Option AgentConfig
load_config json none = none
load_config json (some text) = json.decode_config text

-- Whether there was no error, and the file.
unfoldable pub save_config : Json → Host → AgentConfig → Bool × Option Bytes
save_config json host cfg =
    if not host.dir_made
    then (false, host.config_file)
    else write_file host.config_write (json.encode_config cfg) host.config_file

unfoldable pub base_url : Bytes → Bytes
base_url server_url =
    let base = trim_byte_right b'/' server_url in
    if not (has_prefix base (codes "http")) then codes "https://" ++ base else base

unfoldable pub to_ws : Bytes → Bytes
to_ws url =
    replace_first (replace_first url (codes "https://") (codes "wss://")) (codes "http://")
      (codes "ws://")

unfoldable pub enroll_body : Host → Bytes → Bytes → EnrollBody
enroll_body host code name = record {
  code = code;
  name = if text_eq name [] then host.hostname else name;
  hostname = host.hostname;
  os = host.goos;
  arch = host.goarch;
}

-- `none` is an error.
unfoldable pub config_of : Bytes → Option EnrollResult → Option AgentConfig
config_of base none = none
config_of base (some result) = some (record {
  server_url = to_ws base;
  agent_id = result.agent_id;
  credential = result.credential;
  ca_cert = result.ca_cert;
  fingerprint = result.fingerprint;
})

unfoldable pub enroll : Json → Host → Bytes → Bytes → Bytes → Bool → Option AgentConfig
enroll json host server_url code name insecure =
    let base = base_url server_url in
    elim (host.post insecure (base ++ codes "/api/enroll")
      (json.encode_body (enroll_body host code name))) [
        | none ↦ none
        | some reply ↦
            if not (reply.status_code == 200)
            then none
            else config_of base (json.decode_result reply.body)
      ]

-- tls.Config; `root_cas` is none for the pool of the system.
pub record AgentTls : Type 0 where
  pub min_version : ℕ
  pub root_cas : Option Bytes
  pub insecure_skip_verify : Bool

-- `none` is nil: no TLS.
unfoldable pub build_tls_config : AgentConfig → Bool → Option AgentTls
build_tls_config cfg insecure =
    if not (has_prefix cfg.server_url (codes "wss://"))
    then none
    else if not (text_eq cfg.ca_cert [])
    then some
        (record { min_version = tls13; root_cas = some cfg.ca_cert; insecure_skip_verify = false })
    else some (record { min_version = tls13; root_cas = none; insecure_skip_verify = insecure })

-- The command line.
pub record AgentFlags : Type 0 where
  pub server : Bytes
  pub enroll : Bytes
  pub name : Bytes
  pub insecure : Bool

-- `fatal` is log.Fatal, with the configuration file it leaves. `connecting` is the loop over `run`.
pub data AgentStart : Type 0 where
  fatal : Option Bytes → AgentStart
  connecting : Bytes → Option AgentTls → Agent → Option Bytes → AgentStart

unfoldable pub connect : AgentFlags → AgentConfig → Option Bytes → AgentStart
connect flags cfg file =
    connecting cfg.server_url (build_tls_config cfg flags.insecure)
      (new_agent flags.name cfg.credential) file

unfoldable pub after_enroll : Json → Host → AgentFlags → Option AgentConfig → AgentStart
after_enroll json host flags none = fatal host.config_file
after_enroll json host flags (some cfg) =
    let (saved, file) = save_config json host cfg in
    if not saved then fatal file else connect flags cfg file

-- The URL of the mode without enrollment.
unfoldable pub legacy_url : Bytes → Bytes
legacy_url server = if not (has_prefix server (codes "ws")) then to_ws server else server

unfoldable pub legacy_config : Bytes → AgentConfig
legacy_config server = record {
  server_url = legacy_url server;
  agent_id = [];
  credential = [];
  ca_cert = [];
  fingerprint = [];
}

unfoldable pub after_load : Host → AgentFlags → Option AgentConfig → AgentStart
after_load host flags (some cfg) = connect flags cfg host.config_file
after_load host flags none =
    if not (text_eq flags.server [])
    then connect flags (legacy_config flags.server) host.config_file
    else fatal host.config_file

unfoldable pub start : Json → Host → AgentFlags → AgentStart
start json host flags =
    if not (text_eq flags.enroll [])
    then (if text_eq flags.server []
        then fatal host.config_file
        else after_enroll json host flags
            (enroll json host flags.server flags.enroll flags.name flags.insecure))
    else after_load host flags (load_config json host.config_file)
