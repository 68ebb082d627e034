-- ===== src/Tests/Store.antt =====
-- The SQLite store on a database with one token.
use rmm.Base.{◌≡◌, ◌≢◌, ◌≤◌, ◌↔◌, refl, List, [], ◌∷◌, codes, text_eq, none, some}
use rmm.Store.{Call, EnrollmentToken, ok, err, token_already_used}
use rmm.Store.Table.{find_row}
use rmm.Store.Sqlite.{
  Tables, TokenRow, scan_unused, parse_rfc3339, migrated, create_agent, consume_enrollment_token,
  consume_row,
}
use rmm.Store.Consume.{
  Consumption, IsUp, find_token, consume-Consumption, consume_ok_iff, consume_once,
}
use rmm.Store.History.{Operation, creates_agent, deletes_agent, sees_agent, run}
use rmm.Store.SingleUse.{consume_once_in_history}
use rmm.Tests.Samples.{call, call-IsUp, agent_rec, token, one_token}

consume-Consumption_example :
    Consumption call
      (codes "h1")
      (codes "a1")
      one_token
      (consume_enrollment_token call (codes "h1") (codes "a1") one_token)
consume-Consumption_example = consume-Consumption call (codes "h1") (codes "a1") one_token

consume_ok_iff_example :
    ((consume_enrollment_token call (codes "h1") (codes "a1") one_token).0 ≡ ok (some token)) ↔ (
      (row : TokenRow) × (find_token (codes "h1") one_token ≡ some row)
      × (row.used_at ≡ none)
      × (call.later ≤ parse_rfc3339 row.expires_at)
      × (scan_unused row ≡ token))
consume_ok_iff_example = consume_ok_iff call (codes "h1") (codes "a1") one_token token call-IsUp

abbrev spent : Tables
spent = (consume_enrollment_token call (codes "h1") (codes "a1") one_token).1

consume_once_example :
    ((t' : EnrollmentToken)
      → (consume_enrollment_token call (codes "h1") (codes "a2") spent).0 ≢ ok (some t'))
    × (IsUp call
        → consume_enrollment_token call (codes "h1") (codes "a2") spent
          ≡ (err token_already_used, spent))
unfolding consume_enrollment_token consume_row find_row text_eq
consume_once_example =
    consume_once call call (codes "h1") (codes "a1") (codes "a2") one_token token refl

abbrev history : List (Call × Operation)
history =
    (call, creates_agent agent_rec)
    ∷ (call, sees_agent (codes "a1") 9)
    ∷ (call, deletes_agent (codes "a1"))
    ∷ []

consume_once_in_history_example :
    (consume_enrollment_token call (codes "h1") (codes "a2") (run spent history)).0
    ≢ ok (some token)
unfolding consume_enrollment_token consume_row find_row text_eq
consume_once_in_history_example =
    consume_once_in_history call call (codes "h1") (codes "a1") (codes "a2") one_token token token
      history refl (tt, (tt, (tt, tt)))

abbrev one_agent : Tables
one_agent = (create_agent call agent_rec migrated).1
