-- ===== src/Tests/Stream.antt =====
-- The agent's run on the bytes of a session, a click of a viewer, and a picture.
use rmm.Base.{refl, text_eq, [], ◌∷◌, ◌++◌, codes, ◌≡◌, List, true, none, some, arith}
use rmm.Base.Int.{pos}
use rmm.Protocol.Frame.{Frame}
use rmm.Client.State.{System, Agent, new_agent}
use rmm.Client.Running.{Reachable-IsSound, starts}
use rmm.Client.Stream.{run, Network, connections}
use rmm.Client.Dial.{dial_host, dials_tls}
use rmm.Go.Strings.{contains, cut, index, has_prefix}
use rmm.Server.Upgrade.{handshake_response}
use rmm.Client.Stream.Connections.{Survives, connections-Survives}
use rmm.Client.Stream.Written.{written, run_session, run-written}
use rmm.Store.Sqlite.{Tables}
use rmm.Server.State.{Services, Server, new_server}
use rmm.Session.Picture.{Picture, connect_viewer-Picture}
use rmm.Tests.Samples.{agent_rec, registration_of, services, one_token, platform, call}

-- A message is its kind.
abbrev system : System
system = record {
  decode_message = λ payload. some (record { kind = payload; payload = [] });
  encode_message = λ m. m.kind;
  decode_input = λ payload. some (record {
    kind = codes "mouse";
    action = codes "move";
    x = pos 10;
    y = pos 20;
    button = pos 0;
    key = [];
    code = pos 0;
  });
  decode_display = λ payload. some (pos 2);
  encode_switched = λ display count. codes "switched";
  system_info = λ name. registration_of [];
  to_json = λ reg. reg.credential;
  display_count = 2;
}

abbrev idle : Agent
idle = new_agent (codes "desk") (codes "v1.a1.00")

abbrev registered : Frame
registered = record { opcode = 1; payload = codes "registered" }

abbrev orders : List Frame
orders =
    record { opcode = 1; payload = codes "start_capture" }
    ∷ record { opcode = 9; payload = codes "ping" }
    ∷ record { opcode = 8; payload = [] }
    ∷ []

abbrev net : Network
net = record {
  parsed = some (record { scheme = codes "wss"; host = codes "hub:8443"; path = [] });
  connects = λ host over_tls. over_tls;
  requested = true;
  key = codes "x3JJHMbDL1EzLkh9GBhXDw==";
  registered = true;
  stream =
      handshake_response (codes "HSmrc0sMlYUkAGmm5OPpG2HaGWk=") ++ written (registered ∷ orders);
}

run-written_example : run system 65536 4 true net idle ≡ run_session system registered orders idle
unfolding dial_host dials_tls contains cut index has_prefix text_eq
run-written_example =
    run-written system 65536 4 true net _ (codes "HSmrc0sMlYUkAGmm5OPpG2HaGWk=") registered orders
      idle refl refl refl refl refl (ground arith) (omega arith)
      (omega arith, omega arith, omega arith)
      (
        (omega arith, omega arith, omega arith),
        ((omega arith, omega arith, omega arith), ((omega arith, omega arith, omega arith), tt)),
      )

connections-Survives_example :
    Survives system 65536 idle.credential
      (net ∷ net ∷ [])
      (connections system 65536 true (net ∷ net ∷ []) idle)
connections-Survives_example =
    connections-Survives system 65536 idle.credential true (net ∷ net ∷ []) idle (omega arith)
      (Reachable-IsSound system (codes "desk") (codes "v1.a1.00") idle (omega arith) starts, refl)

abbrev plain : Services Tables
plain = record services {
  decode_message = system.decode_message;
  encode_message = system.encode_message;
}

abbrev click : Frame
click = record { opcode = 1; payload = codes "input" }

abbrev hub : Server Tables
hub = new_server one_token platform none

connect_viewer-Picture_example :
    Picture plain system call call call 7 9
      (codes "10.0.0.1:4711")
      agent_rec
      (registration_of [])
      hub
      idle
      (codes "jpeg")
unfolding new_agent
connect_viewer-Picture_example =
    connect_viewer-Picture plain system call call call 7 9 (codes "10.0.0.1:4711") agent_rec
      (registration_of []) hub idle (codes "jpeg")
      (record { kind = codes "registered"; payload = [] })
      (record { kind = codes "start_capture"; payload = [] }) refl refl refl refl (omega arith)
      (Reachable-IsSound system (codes "desk") (codes "v1.a1.00") idle (omega arith) starts) refl
