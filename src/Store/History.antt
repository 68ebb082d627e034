-- ===== src/Store/History.antt =====
-- internal/store: histories of calls of the SQLite store.
use rmm.Base.{ℕ, List, [], ◌∷◌, Bytes}
use rmm.Store.{AgentRecord, EnrollmentToken, ApiKey, Call}
use rmm.Store.Sqlite.{
  Tables, create_agent, update_agent_seen, delete_agent, create_enrollment_token,
  consume_enrollment_token, delete_enrollment_token, create_api_key, verify_api_key, delete_api_key,
}

pub data Operation : Type 0 where
  creates_agent : AgentRecord → Operation
  sees_agent : Bytes → ℕ → Operation
  deletes_agent : Bytes → Operation
  creates_token : EnrollmentToken → Operation
  consumes_token : Bytes → Bytes → Operation
  deletes_token : Bytes → Operation
  creates_key : ApiKey → Operation
  verifies_key : Bytes → Operation
  deletes_key : Bytes → Operation

-- The tables after one call; the calls that only read are left out.
unfoldable pub step : Tables → Call × Operation → Tables
step db (call, creates_agent a) = (create_agent call a db).1
step db (call, sees_agent id t) = (update_agent_seen call id t db).1
step db (call, deletes_agent id) = (delete_agent call id db).1
step db (call, creates_token t) = (create_enrollment_token call t db).1
step db (call, consumes_token code_hash agent_id) =
    (consume_enrollment_token call code_hash agent_id db).1
step db (call, deletes_token id) = (delete_enrollment_token call id db).1
step db (call, creates_key k) = (create_api_key call k db).1
step db (call, verifies_key key_hash) = (verify_api_key call key_hash db).1
step db (call, deletes_key id) = (delete_api_key call id db).1

unfoldable pub run : Tables → List (Call × Operation) → Tables
run db [] = db
run db (c ∷ cs) = run (step db c) cs
