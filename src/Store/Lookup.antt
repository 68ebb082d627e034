-- ===== src/Store/Lookup.antt =====
-- What the queries of the SQLite store find after its statements.
use rmm.Base.{
  ◌*◌, ◌/◌, ◌≡◌, List, Bytes, none, some, arith, Bool-cases, Option-cases, inl, inr, map,
}
use mathlib.Core.List.{Perm}
use rmm.Store.{AgentRecord, ok, Call}
use rmm.Store.Table.{
  find_row, has_key, find_row-append, find_row-none, find_row-Absent, delete_rows-Absent,
  order_desc,
}
use rmm.Store.Table.Order.{order_desc-perm, order_desc-IsDesc, IsDesc}
use rmm.Store.Sqlite.{
  Tables, AgentRow, agent_row, scan_agent, create_agent, get_agent, get_agent_by_credential,
  delete_agent, list_agents,
}
use rmm.Store.Consume.{IsUp}

-- The record as the database gives it back: its times lose what is below a second.
abbrev pub in_seconds : AgentRecord → AgentRecord
in_seconds a = record a {
  enrolled_at = a.enrolled_at / 1_000_000_000 * 1_000_000_000;
  last_seen = a.last_seen / 1_000_000_000 * 1_000_000_000;
}

-- An agent that was created is found by its credential and by its ID, with its times in seconds.
pub get_agent-create_agent :
    (call later : Call) (a : AgentRecord) (db : Tables)
    → (create_agent call a db).0 ≡ ok tt
    → IsUp later
    → let db' = (create_agent call a db).1 in
      (get_agent_by_credential later a.credential_hash db' ≡ ok (some (in_seconds a)))
      × (get_agent later a.id db' ≡ ok (some (in_seconds a)))
unfolding create_agent get_agent get_agent_by_credential
get_agent-create_agent call later a db e up = elim (Bool-cases (call.fails 0)) [
  | inl down ↦ absurd (ground arith)
  | inr well ↦ elim (Option-cases (find_row (has_key (λ (r : AgentRow). r.id) a.id) db.agents)) [
    | inr (r, taken) ↦ absurd (ground arith)
    | inl new_id ↦
        elim (Option-cases
          (find_row (has_key (λ (r : AgentRow). r.credential_hash) a.credential_hash) db.agents)) [
            | inr (r, taken) ↦ absurd (ground arith)
            | inl new_hash ↦
                rw (well, new_id, new_hash, up 0)
                  (
                    rw (
                        find_row-append (λ (r : AgentRow). r.credential_hash) db.agents
                          (agent_row a) (find_row-none _ _ db.agents new_hash)),
                    rw (
                        find_row-append (λ (r : AgentRow). r.id) db.agents (agent_row a)
                          (find_row-none _ _ db.agents new_id)),
                  )
          ]
  ]
]

-- A deleted agent is not found by its ID.
pub get_agent-delete_agent :
    (call later : Call) (id : Bytes) (db : Tables)
    → IsUp call
    → IsUp later
    → get_agent later id (delete_agent call id db).1 ≡ ok none
unfolding get_agent delete_agent
get_agent-delete_agent call later id db up up' =
    rw (
      up 0,
      up' 0,
      find_row-Absent _ _ _ (delete_rows-Absent (λ (r : AgentRow). r.id) id db.agents),
    )

-- The agents are listed each once, the last enrolled first.
pub list_agents_lem :
    (call : Call) (db : Tables)
    → IsUp call
    → (rows : List AgentRow) × (list_agents call db ≡ ok (map scan_agent rows))
      × Perm rows db.agents
      × IsDesc (λ r. r.enrolled_at) rows
unfolding list_agents
list_agents_lem call db up =
    (order_desc _ db.agents, rw (up 0), order_desc-perm _ db.agents, order_desc-IsDesc _ db.agents)
