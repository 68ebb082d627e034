-- ===== src/Client/State.antt =====
-- cmd/agent/agent.go: Agent, sendMessage, sendBinary and register. A channel is a number.
use rmm.Base.{ℕ, List, [], ◌∷◌, Bytes, codes, Bool, false, Option, none}
use rmm.Base.Int.{ℤ, pos}
use rmm.Protocol.Frame.{Frame, op_text, op_binary}
use rmm.Protocol.Message.{Message, Registration}

-- What reaches the injectors of mouse and key events.
pub data Injection : Type 0 where
  -- The action, the position, and the button.
  mouse : Bytes → ℤ → ℤ → ℤ → Injection
  -- The key and its code.
  key : Bytes → ℤ → Injection

pub record InputEvent : Type 0 where
  pub kind : Bytes
  pub action : Bytes
  pub x : ℤ
  pub y : ℤ
  pub button : ℤ
  pub key : Bytes
  pub code : ℤ

-- encoding/json, CollectSystemInfo and getDisplayCount, whose result is cached.
pub record System : Type 0 where
  pub decode_message : Bytes → Option Message
  pub encode_message : Message → Bytes
  pub decode_input : Bytes → Option InputEvent
  pub decode_display : Bytes → Option ℤ
  pub encode_switched : ℤ → ℕ → Bytes
  pub system_info : Bytes → Registration
  pub to_json : Registration → Bytes
  pub display_count : ℕ

-- A capture goroutine: on its way to its select, or waiting in it for the channel that it evaluated when
-- it entered (none for nil) and for its ticker.
pub data Capture : Type 0 where
  entering : Capture
  waiting : Option ℕ → Capture

-- `stop_capture` is none for nil. `sent` holds the frames that were written, the last first.
pub record Agent : Type 0 where
  pub name : Bytes
  pub credential : Bytes
  pub capturing : Bool
  pub stop_capture : Option ℕ
  pub closed : List ℕ
  pub next_channel : ℕ
  pub captures : List Capture
  pub current_display : ℤ
  pub sent : List Frame
  pub injected : List Injection

unfoldable pub new_agent : Bytes → Bytes → Agent
new_agent name credential = record {
  name = name;
  credential = credential;
  capturing = false;
  stop_capture = none;
  closed = [];
  next_channel = 0;
  captures = [];
  current_display = pos 0;
  sent = [];
  injected = [];
}

abbrev pub send_message : System → Message → Agent → Agent
send_message system msg a = record a {
  sent = record { opcode = op_text; payload = system.encode_message msg } ∷ a.sent;
}

abbrev pub send_binary : Bytes → Agent → Agent
send_binary payload a = record a {
  sent = record { opcode = op_binary; payload = payload } ∷ a.sent;
}

unfoldable pub register : System → Agent → Agent
register system a =
    let info = system.system_info a.name in
    send_message system
      (record {
        kind = codes "register";
        payload = system.to_json (record info { credential = a.credential });
      })
      (record a { name = info.name; current_display = pos 1 })
