-- ===== src/Tests/Admin.antt =====
-- The first start of a server on an empty database.
use rmm.Base.{List, [], ◌∷◌, ◌≡◌, refl, Bytes, codes, replicate, some}
use rmm.Store.{ApiKey, ok}
use rmm.Store.Table.{find_row, order_desc}
use rmm.Store.Sqlite.{Tables, sqlite_store, migrated, verify_api_key, list_api_keys, create_api_key}
use rmm.Security.Hex.{encode}
use rmm.Security.Token.{Random, hash_api_key, generate_api_key}
use rmm.Server.Admin.{kept, ensure_admin_key, store_admin_key}
use rmm.Server.Admin.Lasting.{ensure_admin_key_lem}
use rmm.Store.{Call}
use rmm.Store.History.{Operation, creates_agent, verifies_key, deletes_token, run}
use rmm.Tests.Samples.{checksum, call, call-IsUp, agent_rec}

abbrev pub random : Random
random n = some (replicate n 171)

abbrev pub raw_key : Bytes
raw_key = codes "rmm_abababababababababababababababababababababababababababababababab"

abbrev pub db : Tables
db = (ensure_admin_key sqlite_store checksum call call random (codes "id") 42 migrated).1

abbrev history : List (Call × Operation)
history =
    (call, creates_agent agent_rec)
    ∷ (call, verifies_key (hash_api_key checksum raw_key))
    ∷ (call, deletes_token (codes "t1"))
    ∷ []

ensure_admin_key_lem_example :
    ((k : ApiKey) × ((verify_api_key call (hash_api_key checksum raw_key) (run db history)).0
        ≡ ok (some k)))
    × (ensure_admin_key sqlite_store checksum call call random (codes "id") 43 (run db history)
        ≡ (kept, run db history))
unfolding ensure_admin_key sqlite_store migrated list_api_keys generate_api_key store_admin_key
    create_api_key find_row order_desc encode
ensure_admin_key_lem_example =
    ensure_admin_key_lem checksum call call call call random random (codes "id") (codes "id") 42 43
      raw_key migrated history call-IsUp refl (tt, (tt, (tt, tt)))
