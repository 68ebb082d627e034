-- ===== src/Store/Sqlite/Keys.antt =====
-- internal/store/sqlite.go: the statements on API keys. A statement that the driver fails changes nothing.
use rmm.Base.{List, [], ◌∷◌, ◌++◌, Bytes, if◌then◌else◌, Bool, ◌||◌, Option, none, some, map}
use mathlib.Core.Option
use rmm.Store.{ApiKey, Result, ok, err, constraint_violated, driver_failed, Call}
use rmm.Store.Table.{find_row, update_rows, delete_rows, has_key, order_desc}
use rmm.Store.Sqlite.Rows.{to_rfc3339, parse_rfc3339, KeyRow, Tables, is_some}

abbrev pub key_row : ApiKey → KeyRow
key_row k = record {
  id = k.id;
  name = k.name;
  key_hash = k.key_hash;
  prefix = k.prefix;
  created_at = to_rfc3339 k.created_at;
  last_used = none;
}

-- Whether a row violates a constraint with the new one.
abbrev pub key_exists : ApiKey → Tables → Bool
key_exists k db =
    is_some (find_row (has_key (λ r. r.id) k.id) db.api_keys)
    || is_some (find_row (has_key (λ r. r.key_hash) k.key_hash) db.api_keys)

unfoldable pub create_api_key : Call → ApiKey → Tables → Result (Unit {0}) × Tables
create_api_key call k db =
    if call.fails 0
    then (err driver_failed, db)
    else if key_exists k db
    then (err constraint_violated, db)
    else (ok tt, record db { api_keys = db.api_keys ++ (key_row k ∷ []) })

abbrev pub scan_key : KeyRow → ApiKey
scan_key r = record {
  id = r.id;
  name = r.name;
  key_hash = r.key_hash;
  prefix = r.prefix;
  created_at = parse_rfc3339 r.created_at;
  last_used = Option.map parse_rfc3339 r.last_used;
}

-- The error of the update of `last_used` is dropped.
unfoldable pub touch_key : Call → Bytes → Tables → Tables
touch_key call id db = if call.fails 1 then db else record db {
  api_keys =
      update_rows (has_key (λ r. r.id) id)
        (λ r. record r { last_used = some (to_rfc3339 call.now) }) db.api_keys;
}

unfoldable pub verify_api_key : Call → Bytes → Tables → Result (Option ApiKey) × Tables
verify_api_key call key_hash db =
    if call.fails 0
    then (err driver_failed, db)
    else elim (find_row (has_key (λ r. r.key_hash) key_hash) db.api_keys) [
      | none ↦ (ok none, db)
      | some row ↦ (
        ok (some (record (scan_key row) { last_used = some call.now })),
        touch_key call row.id db,
      )
    ]

unfoldable pub list_api_keys : Call → Tables → Result (List ApiKey)
list_api_keys call db =
    if call.fails 0
    then err driver_failed
    else ok (map scan_key (order_desc (λ r. r.created_at) db.api_keys))

unfoldable pub delete_api_key : Call → Bytes → Tables → Result (Unit {0}) × Tables
delete_api_key call id db =
    if call.fails 0
    then (err driver_failed, db)
    else (ok tt, record db { api_keys = delete_rows (has_key (λ r. r.id) id) db.api_keys })
