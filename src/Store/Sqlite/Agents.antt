-- ===== src/Store/Sqlite/Agents.antt =====
-- internal/store/sqlite.go: the statements on agents. A statement that the driver fails changes nothing.
use rmm.Base.{ℕ, List, [], ◌∷◌, ◌++◌, Bytes, if◌then◌else◌, Bool, ◌||◌, Option, map}
use mathlib.Core.Option
use rmm.Store.{AgentRecord, Result, ok, err, constraint_violated, driver_failed, Call}
use rmm.Store.Table.{find_row, update_rows, delete_rows, has_key, order_desc}
use rmm.Store.Sqlite.Rows.{to_rfc3339, parse_rfc3339, AgentRow, Tables, is_some}

abbrev pub agent_row : AgentRecord → AgentRow
agent_row a = record {
  id = a.id;
  name = a.name;
  hostname = a.hostname;
  os = a.os;
  arch = a.arch;
  credential_hash = a.credential_hash;
  enrolled_at = to_rfc3339 a.enrolled_at;
  last_seen = to_rfc3339 a.last_seen;
}

abbrev pub scan_agent : AgentRow → AgentRecord
scan_agent r = record {
  id = r.id;
  name = r.name;
  hostname = r.hostname;
  os = r.os;
  arch = r.arch;
  credential_hash = r.credential_hash;
  enrolled_at = parse_rfc3339 r.enrolled_at;
  last_seen = parse_rfc3339 r.last_seen;
}

-- Whether a row violates a constraint with the new one.
abbrev pub agent_exists : AgentRecord → Tables → Bool
agent_exists a db =
    is_some (find_row (has_key (λ r. r.id) a.id) db.agents)
    || is_some (find_row (has_key (λ r. r.credential_hash) a.credential_hash) db.agents)

unfoldable pub create_agent : Call → AgentRecord → Tables → Result (Unit {0}) × Tables
create_agent call a db =
    if call.fails 0
    then (err driver_failed, db)
    else if agent_exists a db
    then (err constraint_violated, db)
    else (ok tt, record db { agents = db.agents ++ (agent_row a ∷ []) })

unfoldable pub get_agent : Call → Bytes → Tables → Result (Option AgentRecord)
get_agent call id db =
    if call.fails 0
    then err driver_failed
    else ok (Option.map scan_agent (find_row (has_key (λ r. r.id) id) db.agents))

unfoldable pub get_agent_by_credential : Call → Bytes → Tables → Result (Option AgentRecord)
get_agent_by_credential call credential_hash db =
    if call.fails 0
    then err driver_failed
    else ok (
        Option.map scan_agent
          (find_row (has_key (λ r. r.credential_hash) credential_hash) db.agents))

unfoldable pub update_agent_seen : Call → Bytes → ℕ → Tables → Result (Unit {0}) × Tables
update_agent_seen call id t db = if call.fails 0 then (err driver_failed, db) else (
  ok tt,
  record db {
    agents =
        update_rows (has_key (λ r. r.id) id) (λ r. record r { last_seen = to_rfc3339 t }) db.agents;
  },
)

unfoldable pub list_agents : Call → Tables → Result (List AgentRecord)
list_agents call db =
    if call.fails 0
    then err driver_failed
    else ok (map scan_agent (order_desc (λ r. r.enrolled_at) db.agents))

unfoldable pub delete_agent : Call → Bytes → Tables → Result (Unit {0}) × Tables
delete_agent call id db =
    if call.fails 0
    then (err driver_failed, db)
    else (ok tt, record db { agents = delete_rows (has_key (λ r. r.id) id) db.agents })
