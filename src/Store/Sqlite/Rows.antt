-- ===== src/Store/Sqlite/Rows.antt =====
-- internal/store/sqlite.go: the tables of `migrations`, and the text of a time.
use rmm.Base.{ℕ, ◌*◌, ◌/◌, List, [], Bytes, Bool, true, false, Option, none, some}

-- `t.UTC().Format(time.RFC3339)` keeps whole seconds, and `time.Parse` gives them back. The text of a
-- time is stood for by its number of seconds, which sorts alike.
abbrev pub to_rfc3339 : ℕ → ℕ
to_rfc3339 t = t / 1_000_000_000

abbrev pub parse_rfc3339 : ℕ → ℕ
parse_rfc3339 s = s * 1_000_000_000

pub record AgentRow : Type 0 where
  pub id : Bytes
  pub name : Bytes
  pub hostname : Bytes
  pub os : Bytes
  pub arch : Bytes
  pub credential_hash : Bytes
  pub enrolled_at : ℕ
  pub last_seen : ℕ

-- `none` is NULL.
pub record TokenRow : Type 0 where
  pub id : Bytes
  pub code_hash : Bytes
  pub kind : Bytes
  pub label : Bytes
  pub created_at : ℕ
  pub expires_at : ℕ
  pub used_at : Option ℕ
  pub used_by : Option Bytes

pub record KeyRow : Type 0 where
  pub id : Bytes
  pub name : Bytes
  pub key_hash : Bytes
  pub prefix : Bytes
  pub created_at : ℕ
  pub last_used : Option ℕ

-- The tables of `migrations`, each empty when it is created.
pub record Tables : Type 0 where
  pub agents : List AgentRow
  pub enrollment_tokens : List TokenRow
  pub api_keys : List KeyRow

unfoldable pub migrated : Tables
migrated = record { agents = []; enrollment_tokens = []; api_keys = [] }

abbrev pub is_some {ℓ} : {A : Type ℓ} → Option A → Bool
is_some none = false
is_some (some a) = true
