-- ===== src/Store.antt =====
-- internal/store/store.go: the records that the platform keeps, and the contract of a store.
-- Times are nanoseconds since 1970 in UTC.
pub mod Table
pub mod Sqlite
pub mod Consume
pub mod History
pub mod WellFormed
pub mod SingleUse
pub mod Lookup
pub mod Registry
use rmm.Base.{ℕ, Bool, Bytes, Option, List}

pub record AgentRecord : Type 0 where
  pub id : Bytes
  pub name : Bytes
  pub hostname : Bytes
  pub os : Bytes
  pub arch : Bytes
  pub credential_hash : Bytes
  pub enrolled_at : ℕ
  pub last_seen : ℕ

-- `used_at` is nil, and `used_by` empty, for a token that is not used.
pub record EnrollmentToken : Type 0 where
  pub id : Bytes
  pub code_hash : Bytes
  pub kind : Bytes
  pub label : Bytes
  pub created_at : ℕ
  pub expires_at : ℕ
  pub used_at : Option ℕ
  pub used_by : Bytes

pub record ApiKey : Type 0 where
  pub id : Bytes
  pub name : Bytes
  pub key_hash : Bytes
  pub prefix : Bytes
  pub created_at : ℕ
  pub last_used : Option ℕ

pub data StoreError : Type 0 where
  constraint_violated token_already_used token_expired driver_failed : StoreError

pub data Result {ℓ} (A : Type ℓ) : Type ℓ where
  ok : A → Result A
  err : StoreError → Result A

-- What the world answers during one call: the clock when the call first reads it and when it reads
-- it again, and whether the database driver fails at the call's n-th statement.
pub record Call : Type 0 where
  pub now : ℕ
  pub later : ℕ
  pub fails : ℕ → Bool

-- The Go interface `Store`, over an abstract state. Pointer results that may be nil are options.
pub record Store (S : Type 0) : Type 0 where
  pub create_agent : Call → AgentRecord → S → Result (Unit {0}) × S
  pub get_agent : Call → Bytes → S → Result (Option AgentRecord)
  pub get_agent_by_credential : Call → Bytes → S → Result (Option AgentRecord)
  pub update_agent_seen : Call → Bytes → ℕ → S → Result (Unit {0}) × S
  pub list_agents : Call → S → Result (List AgentRecord)
  pub delete_agent : Call → Bytes → S → Result (Unit {0}) × S
  pub create_enrollment_token : Call → EnrollmentToken → S → Result (Unit {0}) × S
  pub consume_enrollment_token : Call → Bytes → Bytes → S → Result (Option EnrollmentToken) × S
  pub list_enrollment_tokens : Call → S → Result (List EnrollmentToken)
  pub delete_enrollment_token : Call → Bytes → S → Result (Unit {0}) × S
  pub create_api_key : Call → ApiKey → S → Result (Unit {0}) × S
  pub verify_api_key : Call → Bytes → S → Result (Option ApiKey) × S
  pub list_api_keys : Call → S → Result (List ApiKey)
  pub delete_api_key : Call → Bytes → S → Result (Unit {0}) × S
