-- ===== src/Store/Registry/Refinement.antt =====
-- internal/store/sqlite.go: the table of agents implements the registry.
use rmm.Base.{
  ℕ, ◌≡◌, refl, ap, ◌∙◌, List, [], ◌∷◌, ◌++◌, Bytes, text_eq, if◌then◌else◌, Bool, true, false,
  ◌||◌, Option, none, some, arith, Bool-cases, inl, inr, not,
}
use mathlib.Core.Option
use rmm.Store.{AgentRecord, Call, Result, ok}
use rmm.Store.Table.{find_row, has_key, find_row-none, find_row-update}
use rmm.Store.Sqlite.{
  Tables, AgentRow, agent_row, to_rfc3339, scan_agent, agent_exists, is_some, create_agent,
  update_agent_seen, delete_agent, get_agent, get_agent_by_credential, migrated,
  create_enrollment_token, consume_enrollment_token, delete_enrollment_token, create_api_key,
  verify_api_key, delete_api_key, consume_row, mark_used, touch_key,
}
use rmm.Store.Lookup.{in_seconds}
use rmm.Store.Consume.{IsUp}
use rmm.Store.History.{
  Operation, creates_agent, sees_agent, deletes_agent, creates_token, consumes_token, deletes_token,
  creates_key, verifies_key, deletes_key, step, run,
}
use rmm.Store.WellFormed.{IsWellFormed, step-IsWellFormed, migrated-IsWellFormed}
use rmm.Store.Registry.{
  Registry, no_agents, is_new, add, seen, see, unless_id, remove, act, act_all,
}
use rmm.Store.Registry.Queries.{find_row-append_new, find_row-delete_rows, unless_key}

-- What the two queries find in the table.
abbrev found_id : Tables → Bytes → Option AgentRecord
found_id db id = Option.map scan_agent (find_row (has_key (λ r. r.id) id) db.agents)

abbrev found_hash : Tables → Bytes → Option AgentRecord
found_hash db hash =
    Option.map scan_agent (find_row (has_key (λ r. r.credential_hash) hash) db.agents)

pub record Represents (db : Tables) (reg : Registry) : Type 0 where
  pub ids : (id : Bytes) → found_id db id ≡ reg.by_id id
  pub hashes : (hash : Bytes) → found_hash db hash ≡ reg.by_credential hash

abbrev set_seen : Bytes → ℕ → AgentRow → AgentRow
set_seen id t r =
    if has_key (λ (x : AgentRow). x.id) id r then record r { last_seen = to_rfc3339 t } else r

map-seen :
    (id : Bytes) (t : ℕ) (o : Option AgentRow)
    → Option.map scan_agent (Option.map (set_seen id t) o)
      ≡ Option.map (seen id t) (Option.map scan_agent o)
map-seen id t none = refl
map-seen id t (some r) = elim (Bool-cases (text_eq r.id id)) [
  | inl hit ↦ rw hit refl
  | inr miss ↦ rw miss refl
]

map-unless_id :
    (id : Bytes) (o : Option AgentRow)
    → Option.map scan_agent (unless_key (λ r. r.id) id o) ≡ unless_id id (Option.map scan_agent o)
map-unless_id id none = refl
map-unless_id id (some r) = ground arith

map-if :
    (b : Bool) (a : AgentRecord) (o : Option AgentRow)
    → Option.map scan_agent (if b then some (agent_row a) else o)
      ≡ (if b then some (in_seconds a) else Option.map scan_agent o)
map-if true a o = refl
map-if false a o = refl

is_some-map : (o : Option AgentRow) → is_some (Option.map scan_agent o) ≡ is_some o
is_some-map none = refl
is_some-map (some r) = refl

none_of_is_some : {A : Type 0} (o : Option A) → is_some o ≡ false → o ≡ none
none_of_is_some none e = refl
none_of_is_some (some a) e = absurd (cc)

-- A conditional on both sides, and one that is turned on the other.
if_Represents :
    (b : Bool) (x y : Result (Unit {0}) × Tables) (reg reg' : Registry)
    → (b ≡ true → Represents x.1 reg)
    → (b ≡ false → Represents y.1 reg')
    → Represents (if◌then◌else◌ {A = Result (Unit {0}) × Tables} b x y).1 (if b then reg else reg')
if_Represents true x y reg reg' h h' = h refl
if_Represents false x y reg reg' h h' = h' refl

unless_Represents :
    (b : Bool) (x y : Result (Unit {0}) × Tables) (reg reg' : Registry)
    → (b ≡ true → Represents x.1 reg)
    → (b ≡ false → Represents y.1 reg')
    → Represents
        (if◌then◌else◌ {A = Result (Unit {0}) × Tables} b x y).1
        (if not b then reg' else reg)
unless_Represents true x y reg reg' h h' = h refl
unless_Represents false x y reg reg' h h' = h' refl

-- The parts of a disjunction that is false.
neither : (b c : Bool) → b || c ≡ false → (b ≡ false) × (c ≡ false)
neither b c e = ground (arith, e)

module _ (db : Tables) (reg : Registry) (rep : Represents db reg) (w : IsWellFormed db) where
  is_new-agent_exists : (a : AgentRecord) → is_new a reg ≡ not (agent_exists a db)
  is_new-agent_exists a = ground (
    arith,
    rep.ids a.id,
    rep.hashes a.credential_hash,
    is_some-map (find_row (has_key (λ (r : AgentRow). r.id) a.id) db.agents),
    is_some-map
        (find_row (has_key (λ (r : AgentRow). r.credential_hash) a.credential_hash) db.agents),
  )

  add-Represents :
      (a : AgentRecord)
      → agent_exists a db ≡ false
      → Represents (record db { agents = db.agents ++ (agent_row a ∷ []) }) (add a reg)
  add-Represents a new =
      let (no_id, no_hash) = neither _ _ new in
      let fresh_id = find_row-none _ _ db.agents (none_of_is_some _ no_id) in
      let fresh_hash = find_row-none _ _ db.agents (none_of_is_some _ no_hash) in
      record {
        ids = λ j.
            ap (Option.map scan_agent)
              (find_row-append_new (λ r. r.id) j db.agents (agent_row a) fresh_id)
            ∙ (map-if (text_eq a.id j) a _
                ∙ ap (λ o. if text_eq a.id j then some (in_seconds a) else o) (rep.ids j));
        hashes = λ h.
            ap (Option.map scan_agent)
              (find_row-append_new (λ r. r.credential_hash) h db.agents (agent_row a) fresh_hash)
            ∙ (map-if (text_eq a.credential_hash h) a _
                ∙ ap (λ o. if text_eq a.credential_hash h then some (in_seconds a) else o)
                    (rep.hashes h));
      }

  create-Represents :
      (call : Call) (a : AgentRecord)
      → Represents (create_agent call a db).1 (act reg (call, creates_agent a))
  unfolding create_agent act
  create-Represents call a =
      if_Represents (call.fails 0) _ _ reg (if is_new a reg then add a reg else reg) (λ _. rep)
        (λ _.
          rw (is_new-agent_exists a) (
            unless_Represents (agent_exists a db) _ _ reg (add a reg) (λ _. rep)
              (add-Represents a)))

  update-Represents :
      (call : Call) (id : Bytes) (t : ℕ)
      → Represents (update_agent_seen call id t db).1 (act reg (call, sees_agent id t))
  unfolding update_agent_seen act
  update-Represents call id t =
      if_Represents (call.fails 0) _ _ reg (see id t reg) (λ _. rep)
        (λ _. record {
          ids = λ j.
              ap (Option.map scan_agent)
                (find_row-update (has_key (λ r. r.id) j) _ _ db.agents (λ r. refl))
              ∙ (map-seen id t _ ∙ ap (Option.map (seen id t)) (rep.ids j));
          hashes = λ h.
              ap (Option.map scan_agent)
                (find_row-update (has_key (λ r. r.credential_hash) h) _ _ db.agents (λ r. refl))
              ∙ (map-seen id t _ ∙ ap (Option.map (seen id t)) (rep.hashes h));
        })

  delete-Represents :
      (call : Call) (id : Bytes)
      → Represents (delete_agent call id db).1 (act reg (call, deletes_agent id))
  unfolding delete_agent act
  delete-Represents call id =
      if_Represents (call.fails 0) _ _ reg (remove id reg) (λ _. rep)
        (λ _. record {
          ids = λ j.
              ap (Option.map scan_agent)
                (find_row-delete_rows (λ r. r.id) (λ r. r.id) id j db.agents w.agent_ids)
              ∙ (map-unless_id id _ ∙ ap (unless_id id) (rep.ids j));
          hashes = λ h.
              ap (Option.map scan_agent) (
                find_row-delete_rows (λ r. r.id) (λ r. r.credential_hash) id h db.agents
                  w.credential_hashes)
              ∙ (map-unless_id id _ ∙ ap (unless_id id) (rep.hashes h));
        })

  -- The calls on the other tables leave the agents alone.
  same-Represents : (db' : Tables) → db'.agents ≡ db.agents → Represents db' reg
  same-Represents db' e = record {
    ids = λ j.
        ap (λ rows. Option.map scan_agent (find_row (has_key (λ r. r.id) j) rows)) e ∙ rep.ids j;
    hashes = λ h.
        ap (λ rows. Option.map scan_agent (find_row (has_key (λ r. r.credential_hash) h) rows)) e
        ∙ rep.hashes h;
  }

  step-Represents : (c : Call × Operation) → Represents (step db c) (act reg c)
  unfolding step act create_enrollment_token consume_enrollment_token consume_row mark_used
      delete_enrollment_token create_api_key verify_api_key touch_key delete_api_key
  step-Represents (call, creates_agent a) = create-Represents call a
  step-Represents (call, sees_agent id t) = update-Represents call id t
  step-Represents (call, deletes_agent id) = delete-Represents call id
  step-Represents (call, creates_token t) = same-Represents _ (ground arith)
  step-Represents (call, consumes_token code_hash agent_id) = same-Represents _ (ground arith)
  step-Represents (call, deletes_token id) = same-Represents _ (ground arith)
  step-Represents (call, creates_key k) = same-Represents _ (ground arith)
  step-Represents (call, verifies_key key_hash) = same-Represents _ (ground arith)
  step-Represents (call, deletes_key id) = same-Represents _ (ground arith)

run-Represents :
    (cs : List (Call × Operation)) (db : Tables) (reg : Registry)
    → Represents db reg
    → IsWellFormed db
    → Represents (run db cs) (act_all reg cs)
unfolding run act_all
run-Represents [] db reg rep w = rep
run-Represents (c ∷ cs) db reg rep w =
    run-Represents cs (step db c) (act reg c) (step-Represents db reg rep w c)
      (step-IsWellFormed db c w)

migrated-Represents : Represents migrated no_agents
unfolding migrated find_row
migrated-Represents = record { ids = λ id. refl; hashes = λ hash. refl }

get_agent-found :
    (call : Call) (id : Bytes) (db : Tables)
    → IsUp call
    → get_agent call id db ≡ ok (found_id db id)
unfolding get_agent
get_agent-found call id db up = rw (up 0) refl

get_agent_by_credential-found :
    (call : Call) (hash : Bytes) (db : Tables)
    → IsUp call
    → get_agent_by_credential call hash db ≡ ok (found_hash db hash)
unfolding get_agent_by_credential
get_agent_by_credential-found call hash db up = rw (up 0) refl

-- After any history of calls on a new database, failed ones included, GetAgent and
-- GetAgentByCredential give what the registry gives that forgets the table: an agent is added unless its
-- ID or its hash is taken, seen, and removed, and no other call plays a part.
pub run_refines :
    (cs : List (Call × Operation)) (later : Call) (id hash : Bytes)
    → IsUp later
    → (get_agent later id (run migrated cs) ≡ ok ((act_all no_agents cs).by_id id))
      × (get_agent_by_credential later hash (run migrated cs)
          ≡ ok ((act_all no_agents cs).by_credential hash))
run_refines cs later id hash up =
    let rep = run-Represents cs migrated no_agents migrated-Represents migrated-IsWellFormed in
    (
      get_agent-found later id (run migrated cs) up ∙ ap ok (rep.ids id),
      get_agent_by_credential-found later hash (run migrated cs) up ∙ ap ok (rep.hashes hash),
    )
