-- ===== src/Tests/Samples.antt =====
-- Inputs that the tests share: a checksum as a hash, a platform, a driver that never fails.
use rmm.Base.{
  ℕ, ◌+◌, ◌*◌, ◌%◌, ◌<◌, refl, [], ◌∷◌, ◌++◌, Bytes, codes, false, Option, none, some, arith,
  text_eq, if◌then◌else◌, ◌==◌, ◌≡◌, length, take, drop, take-append_length, drop-append_length,
}
use rmm.Base.Int.{pos}
use rmm.Http.{Request}
use rmm.Protocol.Message.{Message, Registration}
use rmm.Security.Hmac.{Hash}
use rmm.Security.Platform.{Platform}
use rmm.Store.{Call, EnrollmentToken, AgentRecord}
use rmm.Store.Consume.{IsUp}
use rmm.Store.Sqlite.{Tables, sqlite_store, token_row}
use rmm.Server.State.{Services}

abbrev pub total : Bytes → ℕ
total [] = 7
total (b ∷ s) = (b + 3 * total s) % 256

pub total_lt : (s : Bytes) → total s < 256
total_lt [] = omega arith
total_lt (b ∷ s) = omega arith

abbrev pub checksum : Hash
checksum = record {
  sum = λ s. total s ∷ [];
  size = 1;
  sum-IsByte = λ s. (total_lt s, tt);
  length-sum = λ s. refl;
}

abbrev pub platform : Platform
platform = record {
  public_key = codes "public";
  private_key = codes "private";
  cred_key = codes "secret";
}

abbrev pub call : Call
call = record { now = 5_000_000_000; later = 5_000_000_001; fails = λ n. false }

pub call-IsUp : IsUp call
call-IsUp n = refl

abbrev pub agent_rec : AgentRecord
agent_rec = record {
  id = codes "a1";
  name = codes "desk";
  hostname = codes "desk.local";
  os = codes "linux";
  arch = codes "amd64";
  credential_hash = codes "c1";
  enrolled_at = 2_500_000_000;
  last_seen = 2_500_000_000;
}

abbrev pub token : EnrollmentToken
token = record {
  id = codes "t1";
  code_hash = codes "h1";
  kind = codes "attended";
  label = [];
  created_at = 1_000_000_000;
  expires_at = 901_000_000_000;
  used_at = none;
  used_by = [];
}

abbrev pub one_token : Tables
one_token = record { agents = []; enrollment_tokens = token_row token ∷ []; api_keys = [] }

abbrev pub upgrade_request : Request
upgrade_request = record {
  meth = codes "GET";
  header = λ name.
      if text_eq name (codes "Upgrade")
      then codes "websocket"
      else codes "x3JJHMbDL1EzLkh9GBhXDw==";
  query = λ name. if text_eq name (codes "token") then codes "rmm_01" else codes "a1";
  body = [];
  remote_addr = codes "10.0.0.1:4711";
}

-- Messages of one letter for the kind, and the credential as the whole of a registration.
abbrev pub kind_of : ℕ → Bytes
kind_of c =
    if c == b'r'
    then codes "register"
    else if c == b'i'
    then codes "input"
    else if c == b'd'
    then codes "display_switched"
    else codes "heartbeat"

abbrev pub decode_message : Bytes → Option Message
decode_message [] = none
decode_message (c ∷ payload) = some (record { kind = kind_of c; payload = payload })

abbrev pub registration_of : Bytes → Registration
registration_of credential = record {
  credential = credential;
  name = codes "desk";
  hostname = codes "desk.local";
  os = codes "linux";
  os_version = codes "6.1";
  arch = codes "amd64";
  cpu_count = pos 8;
  memory_total = 16;
  memory_free = 4;
  disk_total = 100;
  disk_free = 50;
  displays = [];
  display_count = pos 0;
  local_ips = [];
  username = codes "ops";
  uptime_seconds = pos 60;
  agent_version = codes "1.0";
}

abbrev pub registration : Registration
registration = registration_of (codes "v1.a1.00")

abbrev pub services : Services Tables
services = record {
  store = sqlite_store;
  sha256 = checksum;
  sha512 = checksum;
  sha1 = λ s. s;
  base64 = λ s. s;
  decode_message = decode_message;
  encode_message = λ m. m.kind ++ m.payload;
  decode_registration = λ payload. some (registration_of payload);
  encode_id = λ id. id;
}

-- Texts behind their lengths, as a stand-in for JSON.
abbrev pub pack : Bytes → Bytes → Bytes
pack s rest = length s ∷ (s ++ rest)

abbrev pub first : Bytes → Bytes
first [] = []
first (n ∷ s) = take n s

abbrev pub rest : Bytes → Bytes
rest [] = []
rest (n ∷ s) = drop n s

pub first-pack : (s t : Bytes) → first (pack s t) ≡ s
first-pack s t = take-append_length s t

pub rest-pack : (s t : Bytes) → rest (pack s t) ≡ t
rest-pack s t = drop-append_length s t
