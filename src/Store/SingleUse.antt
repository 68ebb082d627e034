-- ===== src/Store/SingleUse.antt =====
-- One enrollment for one token, over whole histories of calls.
use rmm.Base.{
  ℕ, ◌≡◌, refl, ap, sym, ◌∙◌, ◌≢◌, List, [], ◌∷◌, Bytes, some, arith, Bool-cases, inl, inr, text_eq,
  if_rule, All,
}
use rmm.Store.{AgentRecord, EnrollmentToken, ApiKey, Result, ok, Call}
use rmm.Store.Table.{find_row, has_key, find_row-append_found, find_row-update}
use rmm.Store.Sqlite.{
  Tables, TokenRow, token_exists, token_row, create_agent, update_agent_seen, delete_agent,
  create_enrollment_token, consume_enrollment_token, create_api_key, verify_api_key, delete_api_key,
  mark_used, touch_key, to_rfc3339,
}
use rmm.Store.Consume.{
  find_token, consume-Consumption, took, kept, used_is_refused, marked_is_used, mark_used-map,
}
use rmm.Store.History.{
  Operation, creates_agent, sees_agent, deletes_agent, creates_token, consumes_token, deletes_token,
  creates_key, verifies_key, deletes_key, step, run,
}

-- The code's token is there, and it is used.
pub record IsUsed (code_hash : Bytes) (db : Tables) : Type 0 where
  pub row : TokenRow
  pub found : find_token code_hash db ≡ some row
  pub seconds : ℕ
  pub used : row.used_at ≡ some seconds

-- A call that deletes no enrollment token.
abbrev pub KeepsTokens : Call × Operation → Type 0
KeepsTokens (call, deletes_token id) = ⊥
KeepsTokens (call, op) = Unit

module _ (code_hash : Bytes) (db : Tables) (u : IsUsed code_hash db) where
  same_tokens : (db' : Tables) → db'.enrollment_tokens ≡ db.enrollment_tokens → IsUsed code_hash db'
  same_tokens db' e = record {
    row = u.row;
    found = ap (find_row (has_key (λ r. r.code_hash) code_hash)) e ∙ u.found;
    seconds = u.seconds;
    used = u.used;
  }

  create_token-IsUsed :
      (call : Call) (t : EnrollmentToken) → IsUsed code_hash (create_enrollment_token call t db).1
  unfolding create_enrollment_token
  create_token-IsUsed call t =
      if_rule (λ (r : Result (Unit {0}) × Tables). IsUsed code_hash r.1) (call.fails 0) _ _ (λ _. u)
        λ _.
          if_rule (λ (r : Result (Unit {0}) × Tables). IsUsed code_hash r.1) (token_exists t db) _ _
            (λ _. u)
            λ _. record {
              row = u.row;
              found = find_row-append_found _ db.enrollment_tokens (token_row t ∷ []) u.row u.found;
              seconds = u.seconds;
              used = u.used;
            }

  -- Marking some row leaves the code's row used, if at another time when it is that row.
  mark-IsUsed : (id agent_id : Bytes) (now : ℕ) → IsUsed code_hash (mark_used id now agent_id db)
  unfolding mark_used
  mark-IsUsed id agent_id now =
      let updated =
        find_row-update (has_key (λ (r : TokenRow). r.code_hash) code_hash) (has_key (λ r. r.id) id)
          (λ r. record r { used_at = some now; used_by = some agent_id }) db.enrollment_tokens
          (λ r. refl) in
      elim (Bool-cases (text_eq u.row.id id)) [
        | inl this ↦ record {
          row = record u.row { used_at = some now; used_by = some agent_id };
          found = updated ∙ rw (u.found, this);
          seconds = now;
          used = refl;
        }
        | inr other ↦ record {
          row = u.row;
          found = updated ∙ rw (u.found, other);
          seconds = u.seconds;
          used = u.used;
        }
      ]

  consume-IsUsed :
      (call : Call) (hash agent_id : Bytes)
      → IsUsed code_hash (consume_enrollment_token call hash agent_id db).1
  consume-IsUsed call hash agent_id = elim (consume-Consumption call hash agent_id db) [
    | kept _ same ↦ rw same u
    | took row _ _ marked _ ↦
        rw (marked ∙ sym (mark_used-map row.id agent_id (to_rfc3339 call.now) db))
          (mark-IsUsed row.id agent_id _)
  ]

-- The calls on agents and keys leave the tokens alone.
other_tables :
    (db : Tables) (call : Call)
    → ((a : AgentRecord) → (create_agent call a db).1.enrollment_tokens ≡ db.enrollment_tokens)
      × ((k : ApiKey) → (create_api_key call k db).1.enrollment_tokens ≡ db.enrollment_tokens)
      × ((key_hash : Bytes)
          → (verify_api_key call key_hash db).1.enrollment_tokens ≡ db.enrollment_tokens)
unfolding create_agent create_api_key verify_api_key touch_key
other_tables db call = (λ a. ground arith, λ k. ground arith, λ key_hash. ground arith)

step-IsUsed :
    (code_hash : Bytes) (db : Tables) (c : Call × Operation)
    → KeepsTokens c
    → IsUsed code_hash db
    → IsUsed code_hash (step db c)
unfolding step
step-IsUsed h db (call, creates_agent a) k u = same_tokens h db u _ ((other_tables db call).0 a)
step-IsUsed h db (call, sees_agent id t) k u =
    same_tokens h db u _ (unfold update_agent_seen in ground arith)
step-IsUsed h db (call, deletes_agent id) k u =
    same_tokens h db u _ (unfold delete_agent in ground arith)
step-IsUsed h db (call, creates_token t) k u = create_token-IsUsed h db u call t
step-IsUsed h db (call, consumes_token hash agent_id) k u = consume-IsUsed h db u call hash agent_id
step-IsUsed h db (call, deletes_token id) k u = absurd k
step-IsUsed h db (call, creates_key key) k u = same_tokens h db u _ ((other_tables db call).1 key)
step-IsUsed h db (call, verifies_key hash) k u =
    same_tokens h db u _ ((other_tables db call).2 hash)
step-IsUsed h db (call, deletes_key id) k u =
    same_tokens h db u _ (unfold delete_api_key in ground arith)

run-IsUsed :
    (code_hash : Bytes) (db : Tables) (cs : List (Call × Operation))
    → All KeepsTokens cs
    → IsUsed code_hash db
    → IsUsed code_hash (run db cs)
unfolding run
run-IsUsed h db [] k u = u
run-IsUsed h db (c ∷ cs) (kc, k) u = run-IsUsed h (step db c) cs k (step-IsUsed h db c kc u)

-- Once a code was consumed, no consumption of it succeeds again after any history of calls that
-- deletes no enrollment token: a code enrolls one agent.
pub consume_once_in_history :
    (first last : Call) (code_hash agent_id other : Bytes) (db : Tables) (t t' : EnrollmentToken)
    (cs : List (Call × Operation))
    → (consume_enrollment_token first code_hash agent_id db).0 ≡ ok (some t)
    → All KeepsTokens cs
    → (consume_enrollment_token last code_hash other
        (run (consume_enrollment_token first code_hash agent_id db).1 cs)).0
      ≢ ok (some t')
consume_once_in_history first last code_hash agent_id other db t t' cs e k =
    let u = run-IsUsed code_hash _ cs k used_now in
    used_is_refused last code_hash other _ u.row u.seconds u.found u.used t'
  where
    used_now : IsUsed code_hash (consume_enrollment_token first code_hash agent_id db).1
    used_now = elim (consume-Consumption first code_hash agent_id db) [
      | kept none_taken _ ↦ absurd (none_taken t e)
      | took row found result marked _ ↦
          let (row', found', used, _) =
            marked_is_used code_hash agent_id (to_rfc3339 first.now) db row found in
          rw (marked ∙ sym (mark_used-map row.id agent_id (to_rfc3339 first.now) db))
            (record { row = row'; found = found'; seconds = _; used = used })
    ]
