-- ===== src/Server/Admin/Lasting.antt =====
-- cmd/server/main.go: the key that ensureAdminKey shows, over later calls of the SQLite store.
use rmm.Base.{
  ℕ, ◌≡◌, refl, ap, ◌∙◌, ◌≢◌, List, [], ◌∷◌, Bytes, some, arith, text_eq, if◌then◌else◌, if_rule,
  option_rule, Option, All,
}
use rmm.Store.{AgentRecord, EnrollmentToken, ApiKey, Result, ok, Call}
use rmm.Store.Table.{find_row, has_key, find_row-append_found, find_row-update}
use rmm.Store.Table.Order.{order_desc-ne-nil}
use rmm.Store.Sqlite.{
  Tables, KeyRow, sqlite_store, key_row, key_exists, touch_key, to_rfc3339, create_agent,
  update_agent_seen, delete_agent, create_enrollment_token, consume_enrollment_token,
  delete_enrollment_token, create_api_key, verify_api_key,
}
use rmm.Store.Consume.{IsUp, consume-Consumption}
use rmm.Store.Consume
use rmm.Store.History.{
  Operation, creates_agent, sees_agent, deletes_agent, creates_token, consumes_token, deletes_token,
  creates_key, verifies_key, deletes_key, step, run,
}
use rmm.Security.Hmac.{Hash}
use rmm.Security.Token.{Random, hash_api_key}
use rmm.Server.Admin.{created, ensure_admin_key, ensure_admin_key-IsKnown, keeps_keys, verify_found}
use rmm.Server.Admin

-- A row has the hash.
abbrev IsKnown : Bytes → Tables → Type 0
IsKnown key_hash db =
    (row : KeyRow) × (find_row (has_key (λ (r : KeyRow). r.key_hash) key_hash) db.api_keys
      ≡ some row)

-- A call that deletes no API key.
abbrev pub KeepsKeys : Call × Operation → Type 0
KeepsKeys (call, deletes_key id) = ⊥
KeepsKeys (call, op) = Unit

module _ (h : Bytes) (db : Tables) (k : IsKnown h db) where
  same_keys : (db' : Tables) → db'.api_keys ≡ db.api_keys → IsKnown h db'
  same_keys db' e = (k.0, ap (find_row (has_key (λ (r : KeyRow). r.key_hash) h)) e ∙ k.1)

  create_key-IsKnown : (call : Call) (key : ApiKey) → IsKnown h (create_api_key call key db).1
  unfolding create_api_key
  create_key-IsKnown call key =
      let P : Result (Unit {0}) × Tables → Type 0 = λ r. IsKnown h r.1 in
      if_rule P (call.fails 0) _ _ (λ _. k)
        λ _.
          if_rule P (key_exists key db) _ _ (λ _. k)
            λ _. (k.0, find_row-append_found _ db.api_keys (key_row key ∷ []) k.0 k.1)

  touch-IsKnown : (call : Call) (id : Bytes) → IsKnown h (touch_key call id db)
  unfolding touch_key
  touch-IsKnown call id =
      if_rule (IsKnown h) (call.fails 1) _ _ (λ _. k)
        λ _.
          let set : KeyRow → KeyRow = λ r. record r { last_used = some (to_rfc3339 call.now) } in
          (
            if text_eq k.0.id id then set k.0 else k.0,
            find_row-update (has_key (λ (r : KeyRow). r.key_hash) h) (has_key (λ r. r.id) id) set
                  db.api_keys (λ r. refl)
                ∙ rw k.1 refl,
          )

  verify-IsKnown : (call : Call) (hash : Bytes) → IsKnown h (verify_api_key call hash db).1
  unfolding verify_api_key
  verify-IsKnown call hash =
      let P : Result (Option ApiKey) × Tables → Type 0 = λ r. IsKnown h r.1 in
      if_rule P (call.fails 0) _ _ (λ _. k)
        λ _.
          option_rule P (find_row (has_key (λ (r : KeyRow). r.key_hash) hash) db.api_keys) _ _ k
            λ row. touch-IsKnown call row.id

  consume-IsKnown :
      (call : Call) (hash agent_id : Bytes)
      → IsKnown h (consume_enrollment_token call hash agent_id db).1
  consume-IsKnown call hash agent_id = elim (consume-Consumption call hash agent_id db) [
    | Consume.kept _ same ↦ rw same k
    | Consume.took row _ _ marked _ ↦ rw marked k
  ]

-- The calls on agents and tokens leave the keys alone.
other_tables :
    (db : Tables) (call : Call)
    → ((a : AgentRecord) → (create_agent call a db).1.api_keys ≡ db.api_keys)
      × ((id : Bytes) (t : ℕ) → (update_agent_seen call id t db).1.api_keys ≡ db.api_keys)
      × ((id : Bytes) → (delete_agent call id db).1.api_keys ≡ db.api_keys)
      × ((t : EnrollmentToken) → (create_enrollment_token call t db).1.api_keys ≡ db.api_keys)
      × ((id : Bytes) → (delete_enrollment_token call id db).1.api_keys ≡ db.api_keys)
unfolding create_agent update_agent_seen delete_agent create_enrollment_token
    delete_enrollment_token
other_tables db call = (
  λ a. ground arith,
  λ id t. ground arith,
  λ id. ground arith,
  λ t. ground arith,
  λ id. ground arith,
)

step-IsKnown :
    (h : Bytes) (db : Tables) (c : Call × Operation)
    → KeepsKeys c
    → IsKnown h db
    → IsKnown h (step db c)
unfolding step
step-IsKnown h db (call, creates_agent a) w k =
    same_keys h db k (create_agent call a db).1 ((other_tables db call).0 a)
step-IsKnown h db (call, sees_agent id t) w k =
    same_keys h db k (update_agent_seen call id t db).1 ((other_tables db call).1 id t)
step-IsKnown h db (call, deletes_agent id) w k =
    same_keys h db k (delete_agent call id db).1 ((other_tables db call).2 id)
step-IsKnown h db (call, creates_token t) w k =
    same_keys h db k (create_enrollment_token call t db).1 ((other_tables db call).3 t)
step-IsKnown h db (call, consumes_token hash agent_id) w k =
    consume-IsKnown h db k call hash agent_id
step-IsKnown h db (call, deletes_token id) w k =
    same_keys h db k (delete_enrollment_token call id db).1 ((other_tables db call).4 id)
step-IsKnown h db (call, creates_key key) w k = create_key-IsKnown h db k call key
step-IsKnown h db (call, verifies_key hash) w k = verify-IsKnown h db k call hash
step-IsKnown h db (call, deletes_key id) w k = absurd w

run-IsKnown :
    (h : Bytes) (db : Tables) (cs : List (Call × Operation))
    → All KeepsKeys cs
    → IsKnown h db
    → IsKnown h (run db cs)
unfolding run
run-IsKnown h db [] w k = k
run-IsKnown h db (c ∷ cs) (wc, w) k = run-IsKnown h (step db c) cs w (step-IsKnown h db c wc k)

has_rows :
    (h : Bytes) (rows : List KeyRow) (row : KeyRow)
    → find_row (has_key (λ (r : KeyRow). r.key_hash) h) rows ≡ some row
    → rows ≢ []
unfolding find_row
has_rows h [] row found e = cc
has_rows h (r ∷ rows) row found e = cc

-- The key that is shown when the server first starts is accepted by every later call that the driver
-- serves, after any history of the store that deletes no API key; and a start after it keeps the
-- database as it is and shows no key.
pub ensure_admin_key_lem :
    (sha256 : Hash) (first second later third : Call) (random random' : Random)
    (id_bytes id_bytes' : Bytes) (now now' : ℕ) (raw_key : Bytes) (db : Tables)
    (cs : List (Call × Operation))
    → IsUp later
    → (ensure_admin_key sqlite_store sha256 first second random id_bytes now db).0 ≡ created raw_key
    → All KeepsKeys cs
    → let db' =
        run (ensure_admin_key sqlite_store sha256 first second random id_bytes now db).1 cs in
      ((k : ApiKey) × ((verify_api_key later (hash_api_key sha256 raw_key) db').0 ≡ ok (some k)))
      × (ensure_admin_key sqlite_store sha256 later third random' id_bytes' now' db'
          ≡ (Admin.kept, db'))
ensure_admin_key_lem sha256 first second later third random random' id_bytes id_bytes' now now'
      raw_key db cs up e keeps =
    let known =
      run-IsKnown (hash_api_key sha256 raw_key) _ cs keeps
        (ensure_admin_key-IsKnown sha256 first second random id_bytes now raw_key db e) in
    (
      (_, verify_found later _ known.0 _ up known.1),
      keeps_keys sha256 later third random' id_bytes' now' _ up
          (order_desc-ne-nil _ _ (has_rows _ _ known.0 known.1)),
    )
