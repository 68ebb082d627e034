-- ===== src/Server/State.antt =====
-- cmd/server/server.go: Server, LiveAgent, NewServer and newLiveAgent. A LiveAgent is shared by the
-- goroutines that hold its pointer: it lies in `live` under the number of its connection, which is its
-- identity. A goroutine that serves a connection is an entry of `agent_loops` or `viewer_loops`.
use rmm.Base.{ℕ, List, [], ◌∷◌, Bytes, codes, Option}
use rmm.Base.Map.{Map, nat_eq, bytes_eq}
use rmm.Base.Int.{ℤ}
use rmm.Protocol.Frame.{Frame}
use rmm.Protocol.Message.{Message, DisplayInfo, Registration}
use rmm.Store.{Store, AgentRecord}
use rmm.Security.Hmac.{Hash}
use rmm.Security.Platform.{Platform}

pub record LiveAgent : Type 0 where
  pub id : Bytes
  pub name : Bytes
  pub hostname : Bytes
  pub os : Bytes
  pub os_version : Bytes
  pub arch : Bytes
  pub ip : Bytes
  pub status : Bytes
  pub last_seen : ℕ
  pub cpu_count : ℤ
  pub memory_total : ℕ
  pub memory_free : ℕ
  pub disk_total : ℕ
  pub disk_free : ℕ
  pub displays : List DisplayInfo
  pub display_count : ℤ
  pub local_ips : List Bytes
  pub username : Bytes
  pub uptime_seconds : ℤ
  pub agent_version : Bytes
  pub enrolled_at : ℕ
  pub conn : ℕ

-- What the server calls and the source does not implement: the store behind its interface, hashes,
-- base64, and encoding/json on the messages that it reads and writes.
pub record Services (S : Type 0) : Type 0 where
  pub store : Store S
  pub sha256 : Hash
  pub sha512 : Hash
  pub sha1 : Bytes → Bytes
  pub base64 : Bytes → Bytes
  pub decode_message : Bytes → Option Message
  pub encode_message : Message → Bytes
  pub decode_registration : Bytes → Option Registration
  pub encode_id : Bytes → Bytes

-- `tls_ca` is what ReadCACert gives, if TLS is on and the file can be read. `sent` holds the frames
-- that the server wrote, the last first, and `closed` the connections that it closed.
pub record Server (S : Type 0) : Type 0 where
  pub agents : Map Bytes ℕ
  pub viewers : Map Bytes ℕ
  pub live : Map ℕ LiveAgent
  pub agent_loops : Map ℕ Bytes
  pub viewer_loops : Map ℕ (Bytes × ℕ)
  pub store : S
  pub platform : Platform
  pub tls_ca : Option Bytes
  pub sent : List (ℕ × Frame)
  pub closed : List ℕ

unfoldable pub new_server : {S : Type 0} → S → Platform → Option Bytes → Server S
new_server db platform tls_ca = record {
  agents = [];
  viewers = [];
  live = [];
  agent_loops = [];
  viewer_loops = [];
  store = db;
  platform = platform;
  tls_ca = tls_ca;
  sent = [];
  closed = [];
}

unfoldable pub new_live_agent : AgentRecord → Registration → Bytes → ℤ → ℕ → ℕ → LiveAgent
new_live_agent enrolled reg remote_addr display_count conn now = record {
  id = enrolled.id;
  name = reg.name;
  hostname = reg.hostname;
  os = reg.os;
  os_version = reg.os_version;
  arch = reg.arch;
  ip = remote_addr;
  status = codes "online";
  last_seen = now;
  cpu_count = reg.cpu_count;
  memory_total = reg.memory_total;
  memory_free = reg.memory_free;
  disk_total = reg.disk_total;
  disk_free = reg.disk_free;
  displays = reg.displays;
  display_count = display_count;
  local_ips = reg.local_ips;
  username = reg.username;
  uptime_seconds = reg.uptime_seconds;
  agent_version = reg.agent_version;
  enrolled_at = enrolled.enrolled_at;
  conn = conn;
}

module _ {S : Type 0} where
  -- `protocol.WriteServerFrame(conn, opcode, payload)`, its error dropped as the callers do.
  abbrev pub send : ℕ → ℕ → Bytes → Server S → Server S
  send conn opcode payload s = record s {
    sent = (conn, record { opcode = opcode; payload = payload }) ∷ s.sent;
  }

  abbrev pub close : ℕ → Server S → Server S
  close conn s = record s { closed = conn ∷ s.closed }
