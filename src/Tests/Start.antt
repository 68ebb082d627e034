-- ===== src/Tests/Start.antt =====
-- Starts of the server and of the agent, the handshake between them, and the registry of agents.
use rmm.Base.{
  refl, [], ◌∷◌, ◌++◌, Bytes, codes, ◌≡◌, text_eq, List, replicate, true, false, Option, none, some,
  arith, inl, if◌then◌else◌,
}
use rmm.Go.Os.{read_file, succeeds, fails_to_open, write_file}
use rmm.Go.Strings.{has_prefix, trim_byte_right, trim_byte_left, replace_first, cut, index}
use rmm.Store.{Call, ok}
use rmm.Store.Sqlite.{Tables, get_agent, get_agent_by_credential, migrated}
use rmm.Store.History.{Operation, creates_agent, sees_agent, deletes_agent, run}
use rmm.Store.Registry.{no_agents, act_all}
use rmm.Store.Registry.Refinement.{run_refines}
use rmm.Security.Tls.Generate.{CertLibrary, Generation, TlsFiles, make_certs, make_server}
use rmm.Security.Tls.{
  TlsConfig, loaded, generate_error, tls13, load_or_generate_tls, load_files, file_exists,
  read_ca_cert,
}
use rmm.Security.Tls.Restart.{load_or_generate_again, interrupted_generation}
use rmm.Server.State.{Server, new_server}
use rmm.Server.Upgrade.{hijacked}
use rmm.Server.Routes.{Arrival, serve, Protected, serve-Protected, route}
use rmm.Client.State.{new_agent}
use rmm.Client.Program.{
  AgentConfig, Json, Host, AgentFlags, base_url, to_ws, connecting, start, AgentTls, enroll,
  config_of, after_enroll, save_config, connect, build_tls_config,
}
use rmm.Client.Program.Restart.{start_again}
use rmm.Client.Program.Urls.{to_ws-base_url}
use rmm.Tests.Samples.{
  pack, first, rest, first-pack, rest-pack, call, call-IsUp, services, platform, agent_rec,
  upgrade_request, one_token,
}

abbrev history : List (Call × Operation)
history =
    (call, creates_agent agent_rec)
    ∷ (call, sees_agent (codes "a1") 7_300_000_000)
    ∷ (call, deletes_agent (codes "a2"))
    ∷ []

run_refines_example :
    (get_agent call (codes "a1") (run migrated history)
      ≡ ok ((act_all no_agents history).by_id (codes "a1")))
    × (get_agent_by_credential call (codes "c1") (run migrated history)
        ≡ ok ((act_all no_agents history).by_credential (codes "c1")))
run_refines_example = run_refines history call (codes "a1") (codes "c1") call-IsUp

-- A library of certificates that signs everything.
abbrev pub certs : CertLibrary
certs = record {
  public = λ key. key;
  create_certificate = λ random template parent public signer. some (codes "der");
  parse_certificate = λ der. some (record {
    serial_number = 1;
    organization = [];
    common_name = [];
    dns_names = [];
    ip_addresses = [];
    not_before = 0;
    not_after = 0;
    key_usage = [];
    server_auth = false;
    is_ca = true;
    max_path_len = 1;
  });
  marshal_key = λ key. some key;
  pem_encode = λ kind der. kind ++ der;
  load_key_pair = λ cert key. some (cert ++ key);
}

abbrev pub generation : Generation
generation = record {
  ca_key = some (codes "ca");
  server_key = some (codes "srv");
  ca_random = [];
  server_random = [];
  ca_serial = 1;
  server_serial = 2;
  ca_now = 7_200_000_000_000;
  server_now = 7_200_000_000_000;
  hostname = some (codes "hub");
  interfaces = none;
  ca_write = succeeds;
  cert_write = fails_to_open;
  key_write = succeeds;
}

abbrev pub old_pair : TlsFiles
old_pair = record {
  ca_readable = true;
  cert_readable = true;
  key_readable = true;
  ca_cert = some (codes "CA");
  cert = some (codes "C");
  key = some (codes "K");
}

abbrev pub old_config : TlsConfig
old_config = record {
  certificate = some (codes "CK");
  client_cas = some (codes "CA");
  min_version = tls13;
}

old_pair_loads : load_or_generate_tls certs generation old_pair ≡ (loaded old_config, old_pair)
unfolding load_or_generate_tls load_files file_exists read_ca_cert read_file
old_pair_loads = refl

load_or_generate_again_example :
    load_or_generate_tls certs generation old_pair ≡ (loaded old_config, old_pair)
load_or_generate_again_example =
    load_or_generate_again certs generation generation old_pair old_pair old_config old_pair_loads

made :
    make_certs certs generation
    ≡ some (record { ca_der = codes "der"; server_der = codes "der"; server_key = codes "srv" })
unfolding make_certs make_server
made = refl

interrupted_generation_example :
    (files' : TlsFiles) × (load_or_generate_tls certs generation (record {
      ca_readable = true;
      cert_readable = true;
      key_readable = true;
      ca_cert = none;
      cert = some (codes "C");
      key = some (codes "K");
    })
      ≡ (generate_error, files'))
    × (load_or_generate_tls certs generation files' ≡ (
      loaded (record {
        certificate = some (codes "CK");
        client_cas = some (codes "CERTIFICATEder");
        min_version = tls13;
      }),
      files',
    ))
interrupted_generation_example =
    interrupted_generation certs generation generation (codes "C") (codes "K") (codes "CK")
      (record { ca_der = codes "der"; server_der = codes "der"; server_key = codes "srv" }) refl
      made refl refl

abbrev arrival : Arrival
arrival = record {
  path = codes "/api/agents";
  request = upgrade_request;
  auth_call = call;
  first_call = call;
  second_call = call;
  enroll_body = none;
  token_body = none;
  key_body = none;
  random = λ n. none;
  id_bytes = [];
  conn = 1;
  hijack = hijacked;
  frame = none;
}

abbrev hub : Server Tables
hub = new_server one_token platform none

serve-Protected_example :
    Protected services (route (codes "/api/agents")) arrival hub (serve services arrival hub)
serve-Protected_example = serve-Protected services arrival hub (inl refl)

to_ws-base_url_example :
    (to_ws (base_url ((codes "https://" ++ codes "hub:8443") ++ replicate 2 b'/'))
      ≡ codes "wss://hub:8443")
    × (to_ws (base_url ((codes "http://" ++ codes "hub:8443") ++ replicate 2 b'/'))
        ≡ codes "ws://hub:8443")
    × (to_ws (base_url (codes "hub:8443" ++ replicate 2 b'/')) ≡ (
        if has_prefix (codes "hub:8443") (codes "http")
        then codes "hub:8443"
        else codes "wss://hub:8443"))
to_ws-base_url_example = to_ws-base_url (codes "hub:8443") 2 (ground arith) (ground arith)

abbrev json : Json
json = record {
  encode_config = λ cfg.
      pack cfg.server_url
        (pack cfg.agent_id (pack cfg.credential (pack cfg.ca_cert (pack cfg.fingerprint []))));
  decode_config = λ text. some (record {
    server_url = first text;
    agent_id = first (rest text);
    credential = first (rest (rest text));
    ca_cert = first (rest (rest (rest text)));
    fingerprint = first (rest (rest (rest (rest text))));
  });
  encode_body = λ body. body.code;
  decode_result = λ text. some (record {
    agent_id = codes "a1";
    credential = text;
    fingerprint = codes "f";
    ca_cert = codes "CA";
  });
}

json_law : (cfg : AgentConfig) → json.decode_config (json.encode_config cfg) ≡ some cfg
json_law cfg = simp (first-pack, rest-pack) refl

abbrev laptop : Host
laptop = record {
  hostname = codes "desk";
  goos = codes "linux";
  goarch = codes "amd64";
  post = λ insecure url body. some (record { status_code = 200; body = codes "v1.a1.00" });
  config_file = none;
  dir_made = true;
  config_write = succeeds;
}

abbrev enroll_flags : AgentFlags
enroll_flags = record {
  server = codes "hub:8443/";
  enroll = codes "ABCD";
  name = codes "desk";
  insecure = false;
}

abbrev plain_flags : AgentFlags
plain_flags = record enroll_flags { server = []; enroll = []; insecure = true }

abbrev hub_config : AgentConfig
hub_config = record {
  server_url = codes "wss://hub:8443";
  agent_id = codes "a1";
  credential = codes "v1.a1.00";
  ca_cert = codes "CA";
  fingerprint = codes "f";
}

abbrev saved_file : Option Bytes
saved_file = some (json.encode_config hub_config)

abbrev verified : Option AgentTls
verified =
    some
      (record { min_version = tls13; root_cas = some (codes "CA"); insecure_skip_verify = false })

enroll_runs :
    start json laptop enroll_flags
    ≡ connecting
        (codes "wss://hub:8443")
        verified
        (new_agent (codes "desk") (codes "v1.a1.00"))
        saved_file
unfolding start enroll base_url trim_byte_right trim_byte_left has_prefix to_ws replace_first cut
    index config_of after_enroll save_config write_file connect build_tls_config text_eq
enroll_runs = refl

start_again_example :
    start json (record laptop { config_file = saved_file }) plain_flags
    ≡ connecting
        (codes "wss://hub:8443")
        verified
        (new_agent (codes "desk") (new_agent (codes "desk") (codes "v1.a1.00")).credential)
        saved_file
start_again_example =
    start_again json laptop (record laptop { config_file = saved_file }) enroll_flags plain_flags
      (codes "wss://hub:8443") verified (new_agent (codes "desk") (codes "v1.a1.00")) saved_file
      json_law (ground arith) enroll_runs refl refl
