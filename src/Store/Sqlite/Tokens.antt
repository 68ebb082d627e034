-- ===== src/Store/Sqlite/Tokens.antt =====
-- internal/store/sqlite.go: the statements on enrollment tokens. A statement that the driver fails changes nothing.
use rmm.Base.{
  ℕ, List, [], ◌∷◌, ◌++◌, Bytes, ltb, if◌then◌else◌, Bool, ◌||◌, Option, none, some, map,
}
use mathlib.Core.Option
use rmm.Store.{
  EnrollmentToken, Result, ok, err, constraint_violated, token_already_used, token_expired,
  driver_failed, Call,
}
use rmm.Store.Table.{find_row, update_rows, delete_rows, has_key, order_desc}
use rmm.Store.Sqlite.Rows.{to_rfc3339, parse_rfc3339, TokenRow, Tables, is_some}

abbrev pub token_row : EnrollmentToken → TokenRow
token_row t = record {
  id = t.id;
  code_hash = t.code_hash;
  kind = t.kind;
  label = t.label;
  created_at = to_rfc3339 t.created_at;
  expires_at = to_rfc3339 t.expires_at;
  used_at = none;
  used_by = none;
}

-- Whether a row violates a constraint with the new one.
abbrev pub token_exists : EnrollmentToken → Tables → Bool
token_exists t db =
    is_some (find_row (has_key (λ r. r.id) t.id) db.enrollment_tokens)
    || is_some (find_row (has_key (λ r. r.code_hash) t.code_hash) db.enrollment_tokens)

unfoldable pub create_enrollment_token :
    Call → EnrollmentToken → Tables → Result (Unit {0}) × Tables
create_enrollment_token call t db =
    if call.fails 0
    then (err driver_failed, db)
    else if token_exists t db
    then (err constraint_violated, db)
    else (ok tt, record db { enrollment_tokens = db.enrollment_tokens ++ (token_row t ∷ []) })

-- The token that ConsumeEnrollmentToken returns: its use is not filled in.
abbrev pub scan_unused : TokenRow → EnrollmentToken
scan_unused r = record {
  id = r.id;
  code_hash = r.code_hash;
  kind = r.kind;
  label = r.label;
  created_at = parse_rfc3339 r.created_at;
  expires_at = parse_rfc3339 r.expires_at;
  used_at = none;
  used_by = [];
}

-- `UPDATE enrollment_tokens SET used_at = ?, used_by = ? WHERE id = ?`.
unfoldable pub mark_used : Bytes → ℕ → Bytes → Tables → Tables
mark_used id now agent_id db = record db {
  enrollment_tokens =
      update_rows (has_key (λ r. r.id) id)
        (λ r. record r { used_at = some now; used_by = some agent_id }) db.enrollment_tokens;
}

-- From the row that the transaction has read on. Every return before the commit rolls back.
unfoldable pub consume_row :
    Call → Bytes → TokenRow → Tables → Result (Option EnrollmentToken) × Tables
consume_row call agent_id row db =
    if is_some row.used_at
    then (err token_already_used, db)
    else if ltb (parse_rfc3339 row.expires_at) call.later
    then (err token_expired, db)
    else if call.fails 2
    then (err driver_failed, db)
    else if call.fails 3
    then (err driver_failed, db)
    else (ok (some (scan_unused row)), mark_used row.id (to_rfc3339 call.now) agent_id db)

-- The statements are 0 the begin, 1 the query, 2 the update and 3 the commit.
unfoldable pub consume_enrollment_token :
    Call → Bytes → Bytes → Tables → Result (Option EnrollmentToken) × Tables
consume_enrollment_token call code_hash agent_id db =
    if call.fails 0
    then (err driver_failed, db)
    else if call.fails 1
    then (err driver_failed, db)
    else elim (find_row (has_key (λ r. r.code_hash) code_hash) db.enrollment_tokens) [
      | none ↦ (ok none, db)
      | some row ↦ consume_row call agent_id row db
    ]

-- `usedBy.String` is empty for NULL.
abbrev pub scan_token : TokenRow → EnrollmentToken
scan_token r = record {
  id = r.id;
  code_hash = r.code_hash;
  kind = r.kind;
  label = r.label;
  created_at = parse_rfc3339 r.created_at;
  expires_at = parse_rfc3339 r.expires_at;
  used_at = Option.map parse_rfc3339 r.used_at;
  used_by = Option.get_or r.used_by [];
}

unfoldable pub list_enrollment_tokens : Call → Tables → Result (List EnrollmentToken)
list_enrollment_tokens call db =
    if call.fails 0
    then err driver_failed
    else ok (map scan_token (order_desc (λ r. r.created_at) db.enrollment_tokens))

unfoldable pub delete_enrollment_token : Call → Bytes → Tables → Result (Unit {0}) × Tables
delete_enrollment_token call id db = if call.fails 0 then (err driver_failed, db) else (
  ok tt,
  record db { enrollment_tokens = delete_rows (has_key (λ r. r.id) id) db.enrollment_tokens },
)
