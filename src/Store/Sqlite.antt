-- ===== src/Store/Sqlite.antt =====
-- internal/store/sqlite.go: SQLiteStore as a store. Its tables and statements are in the children.
mod Rows
mod Agents
mod Tokens
mod Keys
unfoldable pub use Rows.*
unfoldable pub use Agents.*
unfoldable pub use Tokens.*
unfoldable pub use Keys.*
use rmm.Store.{Store}

unfoldable pub sqlite_store : Store Tables
sqlite_store = record {
  create_agent = create_agent;
  get_agent = get_agent;
  get_agent_by_credential = get_agent_by_credential;
  update_agent_seen = update_agent_seen;
  list_agents = list_agents;
  delete_agent = delete_agent;
  create_enrollment_token = create_enrollment_token;
  consume_enrollment_token = consume_enrollment_token;
  list_enrollment_tokens = list_enrollment_tokens;
  delete_enrollment_token = delete_enrollment_token;
  create_api_key = create_api_key;
  verify_api_key = verify_api_key;
  list_api_keys = list_api_keys;
  delete_api_key = delete_api_key;
}
