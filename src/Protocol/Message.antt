-- ===== src/Protocol/Message.antt =====
-- internal/protocol/message.go: the envelope and the registration. Integers that may be negative in
-- Go are `ℤ`.
use rmm.Base.{ℕ, Bytes, List}
use rmm.Base.Int.{ℤ}

-- The payload is raw JSON, empty where it is omitted.
pub record Message : Type 0 where
  pub kind : Bytes
  pub payload : Bytes

pub record DisplayInfo : Type 0 where
  pub index : ℤ
  pub width : ℤ
  pub height : ℤ

pub record Registration : Type 0 where
  pub credential : Bytes
  pub name : Bytes
  pub hostname : Bytes
  pub os : Bytes
  pub os_version : Bytes
  pub arch : Bytes
  pub cpu_count : ℤ
  pub memory_total : ℕ
  pub memory_free : ℕ
  pub disk_total : ℕ
  pub disk_free : ℕ
  pub displays : List DisplayInfo
  pub display_count : ℤ
  pub local_ips : List Bytes
  pub username : Bytes
  pub uptime_seconds : ℤ
  pub agent_version : Bytes
