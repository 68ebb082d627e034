-- ===== src/Store/WellFormed.antt =====
-- internal/store/sqlite.go: the constraints of the tables, over histories of calls.
use rmm.Base.{◌≡◌, refl, sym, ◌∙◌, List, [], ◌∷◌, Bytes, false, ◌||◌, Option, none, some, if_rule}
use rmm.Store.{AgentRecord, EnrollmentToken, ApiKey, Result, ok, Call}
use rmm.Store.Table.{
  find_row, has_key, find_row-none, Unique, Unique-append, Unique-update, Unique-delete,
}
use rmm.Store.Sqlite.{
  to_rfc3339, Tables, agent_exists, token_exists, key_exists, AgentRow, TokenRow, KeyRow, scan_key,
  migrated, is_some, create_agent, update_agent_seen, delete_agent, create_enrollment_token,
  consume_enrollment_token, delete_enrollment_token, create_api_key, verify_api_key, delete_api_key,
  mark_used, touch_key,
}
use rmm.Store.Consume.{consume-Consumption, took, kept, mark_used-map}
use rmm.Store.History.{
  Operation, creates_agent, sees_agent, deletes_agent, creates_token, consumes_token, deletes_token,
  creates_key, verifies_key, deletes_key, step, run,
}

-- The PRIMARY KEY and UNIQUE constraints of the schema.
pub record IsWellFormed (db : Tables) : Type 0 where
  pub agent_ids : Unique (λ r. r.id) db.agents
  pub credential_hashes : Unique (λ r. r.credential_hash) db.agents
  pub token_ids : Unique (λ r. r.id) db.enrollment_tokens
  pub code_hashes : Unique (λ r. r.code_hash) db.enrollment_tokens
  pub key_ids : Unique (λ r. r.id) db.api_keys
  pub key_hashes : Unique (λ r. r.key_hash) db.api_keys

pub migrated-IsWellFormed : IsWellFormed migrated
unfolding migrated
migrated-IsWellFormed = record {
  agent_ids = tt;
  credential_hashes = tt;
  token_ids = tt;
  code_hashes = tt;
  key_ids = tt;
  key_hashes = tt;
}

neither :
    {A B : Type 0} (x : Option A) (y : Option B)
    → is_some x || is_some y ≡ false
    → (x ≡ none) × (y ≡ none)
neither none none e = (refl, refl)
neither none (some b) e = absurd (cc)
neither (some a) y e = absurd (cc)

module _ {db : Tables} (w : IsWellFormed db) where
  with_agents :
      (rows : List AgentRow)
      → Unique (λ r. r.id) rows
      → Unique (λ r. r.credential_hash) rows
      → IsWellFormed (record db { agents = rows })
  with_agents rows ids hashes = record {
    agent_ids = ids;
    credential_hashes = hashes;
    token_ids = w.token_ids;
    code_hashes = w.code_hashes;
    key_ids = w.key_ids;
    key_hashes = w.key_hashes;
  }

  with_tokens :
      (rows : List TokenRow)
      → Unique (λ r. r.id) rows
      → Unique (λ r. r.code_hash) rows
      → IsWellFormed (record db { enrollment_tokens = rows })
  with_tokens rows ids hashes = record {
    agent_ids = w.agent_ids;
    credential_hashes = w.credential_hashes;
    token_ids = ids;
    code_hashes = hashes;
    key_ids = w.key_ids;
    key_hashes = w.key_hashes;
  }

  with_keys :
      (rows : List KeyRow)
      → Unique (λ r. r.id) rows
      → Unique (λ r. r.key_hash) rows
      → IsWellFormed (record db { api_keys = rows })
  with_keys rows ids hashes = record {
    agent_ids = w.agent_ids;
    credential_hashes = w.credential_hashes;
    token_ids = w.token_ids;
    code_hashes = w.code_hashes;
    key_ids = ids;
    key_hashes = hashes;
  }

abbrev Keeps : {A : Type 0} → Result A × Tables → Type 0
Keeps r = IsWellFormed r.1

create_agent-IsWellFormed :
    (call : Call) (a : AgentRecord) (db : Tables)
    → IsWellFormed db
    → IsWellFormed (create_agent call a db).1
unfolding create_agent
create_agent-IsWellFormed call a db w =
    if_rule (Keeps {A = Unit {0}}) (call.fails 0) _ _ (λ _. w)
      λ _.
        if_rule (Keeps {A = Unit {0}}) (agent_exists a db) _ _ (λ _. w)
          λ new.
            let (no_id, no_hash) = neither _ _ new in
            with_agents w _
              (Unique-append _ db.agents _ w.agent_ids (find_row-none _ _ db.agents no_id))
              (Unique-append _ db.agents _ w.credential_hashes
                (find_row-none _ _ db.agents no_hash))

create_token-IsWellFormed :
    (call : Call) (t : EnrollmentToken) (db : Tables)
    → IsWellFormed db
    → IsWellFormed (create_enrollment_token call t db).1
unfolding create_enrollment_token
create_token-IsWellFormed call t db w =
    if_rule (Keeps {A = Unit {0}}) (call.fails 0) _ _ (λ _. w)
      λ _.
        if_rule (Keeps {A = Unit {0}}) (token_exists t db) _ _ (λ _. w)
          λ new.
            let (no_id, no_hash) = neither _ _ new in
            with_tokens w _
              (Unique-append _ db.enrollment_tokens _ w.token_ids
                (find_row-none _ _ db.enrollment_tokens no_id))
              (Unique-append _ db.enrollment_tokens _ w.code_hashes
                (find_row-none _ _ db.enrollment_tokens no_hash))

create_key-IsWellFormed :
    (call : Call) (k : ApiKey) (db : Tables)
    → IsWellFormed db
    → IsWellFormed (create_api_key call k db).1
unfolding create_api_key
create_key-IsWellFormed call k db w =
    if_rule (Keeps {A = Unit {0}}) (call.fails 0) _ _ (λ _. w)
      λ _.
        if_rule (Keeps {A = Unit {0}}) (key_exists k db) _ _ (λ _. w)
          λ new.
            let (no_id, no_hash) = neither _ _ new in
            with_keys w _
              (Unique-append _ db.api_keys _ w.key_ids (find_row-none _ _ db.api_keys no_id))
              (Unique-append _ db.api_keys _ w.key_hashes (find_row-none _ _ db.api_keys no_hash))

consume-IsWellFormed :
    (call : Call) (code_hash agent_id : Bytes) (db : Tables)
    → IsWellFormed db
    → IsWellFormed (consume_enrollment_token call code_hash agent_id db).1
unfolding mark_used
consume-IsWellFormed call code_hash agent_id db w =
    elim (consume-Consumption call code_hash agent_id db) [
      | kept _ same ↦ rw same w
      | took row _ _ marked _ ↦
          rw (marked ∙ sym (mark_used-map row.id agent_id (to_rfc3339 call.now) db)) (
            with_tokens w _ (Unique-update _ _ _ db.enrollment_tokens (λ r. refl) w.token_ids)
              (Unique-update _ _ _ db.enrollment_tokens (λ r. refl) w.code_hashes))
    ]

verify-IsWellFormed :
    (call : Call) (key_hash : Bytes) (db : Tables)
    → IsWellFormed db
    → IsWellFormed (verify_api_key call key_hash db).1
unfolding verify_api_key touch_key
verify-IsWellFormed call key_hash db w =
    if_rule (Keeps {A = Option ApiKey}) _ _ _ (λ _. w)
      λ _.
        elim (find_row (has_key (λ r. r.key_hash) key_hash) db.api_keys)
          as (λ o. Keeps {A = Option ApiKey} (elim o [
            | none ↦ (ok none, db)
            | some row ↦ (
              ok (some (record (scan_key row) { last_used = some call.now })),
              touch_key call row.id db,
            )
          ])) [
            | none ↦ w
            | some row ↦
                if_rule IsWellFormed (call.fails 1) _ _ (λ _. w)
                  λ _.
                    with_keys w _ (Unique-update _ _ _ db.api_keys (λ r. refl) w.key_ids)
                      (Unique-update _ _ _ db.api_keys (λ r. refl) w.key_hashes)
          ]

-- Every call keeps the constraints of the schema.
pub step-IsWellFormed :
    (db : Tables) (c : Call × Operation) → IsWellFormed db → IsWellFormed (step db c)
unfolding step update_agent_seen delete_agent delete_enrollment_token delete_api_key
step-IsWellFormed db (call, creates_agent a) w = create_agent-IsWellFormed call a db w
step-IsWellFormed db (call, sees_agent id t) w =
    if_rule (Keeps {A = Unit {0}}) (call.fails 0) _ _ (λ _. w)
      λ _.
        with_agents w _ (Unique-update _ _ _ db.agents (λ r. refl) w.agent_ids)
          (Unique-update _ _ _ db.agents (λ r. refl) w.credential_hashes)
step-IsWellFormed db (call, deletes_agent id) w =
    if_rule (Keeps {A = Unit {0}}) (call.fails 0) _ _ (λ _. w)
      λ _.
        with_agents w _ (Unique-delete _ _ db.agents w.agent_ids)
          (Unique-delete _ _ db.agents w.credential_hashes)
step-IsWellFormed db (call, creates_token t) w = create_token-IsWellFormed call t db w
step-IsWellFormed db (call, consumes_token code_hash agent_id) w =
    consume-IsWellFormed call code_hash agent_id db w
step-IsWellFormed db (call, deletes_token id) w =
    if_rule (Keeps {A = Unit {0}}) (call.fails 0) _ _ (λ _. w)
      λ _.
        with_tokens w _ (Unique-delete _ _ db.enrollment_tokens w.token_ids)
          (Unique-delete _ _ db.enrollment_tokens w.code_hashes)
step-IsWellFormed db (call, creates_key k) w = create_key-IsWellFormed call k db w
step-IsWellFormed db (call, verifies_key key_hash) w = verify-IsWellFormed call key_hash db w
step-IsWellFormed db (call, deletes_key id) w =
    if_rule (Keeps {A = Unit {0}}) (call.fails 0) _ _ (λ _. w)
      λ _.
        with_keys w _ (Unique-delete _ _ db.api_keys w.key_ids)
          (Unique-delete _ _ db.api_keys w.key_hashes)

run_keeps :
    (db : Tables) (cs : List (Call × Operation)) → IsWellFormed db → IsWellFormed (run db cs)
unfolding run
run_keeps db [] w = w
run_keeps db (c ∷ cs) w = run_keeps (step db c) cs (step-IsWellFormed db c w)

-- After any history of calls on a new database no two agents share an ID or a credential hash, no two
-- tokens an ID or a code hash, and no two API keys an ID or a key hash, whatever calls fail.
pub run-IsWellFormed : (cs : List (Call × Operation)) → IsWellFormed (run migrated cs)
run-IsWellFormed cs = run_keeps migrated cs migrated-IsWellFormed
