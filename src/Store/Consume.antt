-- ===== src/Store/Consume.antt =====
-- ConsumeEnrollmentToken: a token is used at most once, in time, and all or nothing.
use rmm.Base.{
  ℕ, ◌≤◌, ◌≡◌, refl, ap, sym, map, text_eq, if◌then◌else◌, ◌∙◌, ◌≢◌, ◌↔◌, Bytes, ltb, false, Option,
  none, some, arith, Option-cases, inl, inr, text_eq_refl, if_rule,
}
use rmm.Store.{EnrollmentToken, Result, ok, err, token_already_used, Call}
use rmm.Store.Table.{find_row, has_key, find_row-update, update_rows-map}
use rmm.Store.Sqlite.{
  Tables, TokenRow, is_some, to_rfc3339, parse_rfc3339, scan_unused, mark_used, consume_row,
  consume_enrollment_token,
}

abbrev pub find_token : Bytes → Tables → Option TokenRow
find_token code_hash db = find_row (has_key (λ r. r.code_hash) code_hash) db.enrollment_tokens

-- A call in which the driver fails no statement.
abbrev pub IsUp : Call → Type 0
IsUp call = (n : ℕ) → call.fails n ≡ false

-- With no fault of the driver, consumption returns a token exactly when a row has the code's hash, is
-- not used and not past its expiry, and that row's token is the result.
pub consume_ok_iff :
    (call : Call) (code_hash agent_id : Bytes) (db : Tables) (t : EnrollmentToken)
    → IsUp call
    → ((consume_enrollment_token call code_hash agent_id db).0 ≡ ok (some t)) ↔ (
        (row : TokenRow) × (find_token code_hash db ≡ some row)
        × (row.used_at ≡ none)
        × (call.later ≤ parse_rfc3339 row.expires_at)
        × (scan_unused row ≡ t))
unfolding consume_enrollment_token consume_row
consume_ok_iff call code_hash agent_id db t up = (to, from)
  where
    to :
        (consume_enrollment_token call code_hash agent_id db).0 ≡ ok (some t)
        → (row : TokenRow) × (find_token code_hash db ≡ some row)
          × (row.used_at ≡ none)
          × (call.later ≤ parse_rfc3339 row.expires_at)
          × (scan_unused row ≡ t)
    to e = elim (Option-cases (find_token code_hash db)) [
      | inl missing ↦ absurd (ground (arith, up 0, up 1))
      | inr (row, found) ↦ (
        row,
        found,
        ground (arith, up 0, up 1),
        ground (arith, up 0, up 1),
        ground (arith, up 0, up 1),
      )
    ]

    from :
        ((row : TokenRow) × (find_token code_hash db ≡ some row)
          × (row.used_at ≡ none)
          × (call.later ≤ parse_rfc3339 row.expires_at)
          × (scan_unused row ≡ t))
        → (consume_enrollment_token call code_hash agent_id db).0 ≡ ok (some t)
    from (row, found, unused, in_time, same) = ground (arith, up 0, up 1, up 2, up 3)

-- What a call may have done: it took the token of the code's row and marked it, or it took none and
-- left every table as it was.
pub data Consumption (call : Call) (code_hash agent_id : Bytes) (db : Tables)
    (r : Result (Option EnrollmentToken) × Tables) : Type 0 where
  took :
      (row : TokenRow)
      → find_token code_hash db ≡ some row
      → r.0 ≡ ok (some (scan_unused row))
      → r.1 ≡ record db {
        enrollment_tokens =
            map
              (λ r.
                if text_eq r.id row.id
                then record r { used_at = some (to_rfc3339 call.now); used_by = some agent_id }
                else r)
              db.enrollment_tokens;
      }
      → find_token code_hash r.1
        ≡ some (record row { used_at = some (to_rfc3339 call.now); used_by = some agent_id })
      → Consumption call code_hash agent_id db r
  kept :
      ((t : EnrollmentToken) → r.0 ≢ ok (some t))
      → r.1 ≡ db
      → Consumption call code_hash agent_id db r

-- The row of the code after its use is recorded.
marked_row :
    (code_hash agent_id : Bytes) (now : ℕ) (db : Tables) (row : TokenRow)
    → find_token code_hash db ≡ some row
    → find_token code_hash (mark_used row.id now agent_id db)
      ≡ some (record row { used_at = some now; used_by = some agent_id })
unfolding mark_used
marked_row code_hash agent_id now db row found =
    find_row-update _ _ _ db.enrollment_tokens (λ r. refl) ∙ rw (found, text_eq_refl row.id)

pub marked_is_used :
    (code_hash agent_id : Bytes) (now : ℕ) (db : Tables) (row : TokenRow)
    → find_token code_hash db ≡ some row
    → (row' : TokenRow) × (find_token code_hash (mark_used row.id now agent_id db) ≡ some row')
      × (row'.used_at ≡ some now)
      × (row'.used_by ≡ some agent_id)
marked_is_used code_hash agent_id now db row found =
    (_, marked_row code_hash agent_id now db row found, refl, refl)

pub mark_used-map :
    (id agent_id : Bytes) (now : ℕ) (db : Tables)
    → mark_used id now agent_id db ≡ record db {
      enrollment_tokens =
          map
            (λ r.
              if text_eq r.id id
              then record r { used_at = some now; used_by = some agent_id }
              else r)
            db.enrollment_tokens;
    }
unfolding mark_used
mark_used-map id agent_id now db =
    ap (λ rows. record db { enrollment_tokens = rows }) (update_rows-map _ _ db.enrollment_tokens)

module _ (call : Call) (code_hash agent_id : Bytes) (db : Tables) where
  abbrev Shape : Result (Option EnrollmentToken) × Tables → Type 0
  Shape = Consumption call code_hash agent_id db

  consume_row-Consumption :
      (row : TokenRow)
      → find_token code_hash db ≡ some row
      → Shape (consume_row call agent_id row db)
  unfolding consume_row
  consume_row-Consumption row found =
      if_rule Shape (is_some row.used_at) _ _ (λ _. kept (λ t e. cc) refl)
        λ _.
          if_rule Shape (ltb (parse_rfc3339 row.expires_at) call.later) _ _
            (λ _. kept (λ t e. cc) refl)
            λ _.
              if_rule Shape (call.fails 2) _ _ (λ _. kept (λ t e. cc) refl)
                λ _.
                  if_rule Shape (call.fails 3) _ _ (λ _. kept (λ t e. cc) refl)
                    λ _.
                      took row found refl (mark_used-map row.id agent_id (to_rfc3339 call.now) db)
                        (marked_row code_hash agent_id (to_rfc3339 call.now) db row found)

  -- Whatever statement the driver fails, consumption either returns the token of the code's row, and
  -- then the rows of that row's ID, and nothing else, have the time and the agent set, so that the code
  -- is found used; or it returns no token, and then every table is as it was.
  pub consume-Consumption :
      Consumption call code_hash agent_id db (consume_enrollment_token call code_hash agent_id db)
  unfolding consume_enrollment_token
  consume-Consumption =
      if_rule Shape (call.fails 0) _ _ (λ _. kept (λ t e. cc) refl)
        λ _.
          if_rule Shape (call.fails 1) _ _ (λ _. kept (λ t e. cc) refl)
            λ _. from_search (find_token code_hash db) refl
    where
      from_search :
          (o : Option TokenRow)
          → find_token code_hash db ≡ o
          → Shape (elim o [ none ↦ (ok none, db) | some row ↦ consume_row call agent_id row db ])
      from_search none e = kept (λ t e. cc) refl
      from_search (some row) e = consume_row-Consumption row e

pub used_is_refused :
    (call : Call) (code_hash agent_id : Bytes) (db : Tables) (row : TokenRow) (s : ℕ)
    → find_token code_hash db ≡ some row
    → row.used_at ≡ some s
    → (t : EnrollmentToken) → (consume_enrollment_token call code_hash agent_id db).0 ≢ ok (some t)
unfolding consume_enrollment_token consume_row
used_is_refused call code_hash agent_id db row s found used t e = ground arith

-- After a successful consumption no later one of the same code succeeds, for any agent, at any time
-- and whatever the driver does; with no fault of the driver, the answer is that the token was used.
pub consume_once :
    (call later : Call) (code_hash agent_id other : Bytes) (db : Tables) (t : EnrollmentToken)
    → (consume_enrollment_token call code_hash agent_id db).0 ≡ ok (some t)
    → let db' = (consume_enrollment_token call code_hash agent_id db).1 in
      ((t' : EnrollmentToken)
        → (consume_enrollment_token later code_hash other db').0 ≢ ok (some t'))
      × (IsUp later
          → consume_enrollment_token later code_hash other db' ≡ (err token_already_used, db'))
consume_once call later code_hash agent_id other db t e =
    elim (consume-Consumption call code_hash agent_id db) [
      | kept none_taken same ↦ absurd (none_taken t e)
      | took row found result marked _ ↦
          let (row', found', used, _) =
            marked_is_used code_hash agent_id (to_rfc3339 call.now) db row found in
          rw (marked ∙ sym (mark_used-map row.id agent_id (to_rfc3339 call.now) db)) (
            used_is_refused later code_hash other _ row' _ found' used,
            λ up. refused later _ row' found' used up,
          )
    ]
  where
    refused :
        (c : Call) (s : ℕ) (row' : TokenRow) {db'' : Tables}
        → find_token code_hash db'' ≡ some row'
        → row'.used_at ≡ some s
        → IsUp c
        → consume_enrollment_token c code_hash other db'' ≡ (err token_already_used, db'')
    refused c s row' found' used up =
        unfold consume_enrollment_token consume_row in ground (arith, up 0, up 1)
