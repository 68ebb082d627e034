-- ===== src/Server/Admin.antt =====
-- cmd/server/main.go: ensureAdminKey, on any store, and what it leaves in the SQLite store.
pub mod Lasting
use rmm.Base.{
  ℕ, ◌≡◌, refl, ap, ◌∙◌, ◌≢◌, List, [], ◌∷◌, ◌++◌, Bytes, codes, none, some, Option-cases, false,
  inl, inr, arith, map,
}
use rmm.Store.{Store, ApiKey, Call, Result, ok, err}
use rmm.Store.Table.{find_row, has_key, find_row-append, find_row-none, order_desc}
use rmm.Store.Table.Order.{order_desc-append_nonempty}
use rmm.Store.Sqlite.{
  Tables, KeyRow, key_row, scan_key, sqlite_store, create_api_key, list_api_keys, verify_api_key,
}
use rmm.Store.Consume.{IsUp}
use rmm.Security.Hmac.{Hash}
use rmm.Security.Token.{Random, generate_api_key, hash_api_key}
use rmm.Security.Token
use rmm.Security.Token.Code.{hash_api_key-generate}

-- `stopped` is `log.Fatalf`; `created` shows the key.
pub data AdminStart : Type 0 where
  stopped : AdminStart
  kept : AdminStart
  created : Bytes → AdminStart

module _ {S : Type 0} (store : Store S) (sha256 : Hash) where
  unfoldable pub store_admin_key : Call → ApiKey → Bytes → S → AdminStart × S
  store_admin_key call k raw_key s =
      let (result, s') = store.create_api_key call k s in
      elim result [ err e ↦ (stopped, s') | ok _ ↦ (created raw_key, s') ]

  -- `first` and `second` are the store's two calls, `now` the clock of GenerateAPIKey.
  unfoldable pub ensure_admin_key : Call → Call → Random → Bytes → ℕ → S → AdminStart × S
  ensure_admin_key first second random id_bytes now s = elim (store.list_api_keys first s) [
    | err e ↦ (stopped, s)
    | ok (k ∷ keys) ↦ (kept, s)
    | ok [] ↦ elim (generate_api_key sha256 random id_bytes now (codes "admin")) [
      | Token.err e ↦ (stopped, s)
      | Token.ok (k, raw_key) ↦ store_admin_key second k raw_key s
    ]
  ]

-- What was done when a key is shown: it was generated, its hash was new, and its row was inserted.
record Creation (sha256 : Hash) (random : Random) (id_bytes : Bytes) (now : ℕ) (db : Tables)
    (raw_key : Bytes) (db' : Tables) : Type 0 where
  key : ApiKey
  generated : generate_api_key sha256 random id_bytes now (codes "admin") ≡ Token.ok (key, raw_key)
  new_hash : find_row (has_key (λ (r : KeyRow). r.key_hash) key.key_hash) db.api_keys ≡ none
  inserted : db' ≡ record db { api_keys = db.api_keys ++ (key_row key ∷ []) }

module _ (sha256 : Hash) (first second : Call) (random : Random) (id_bytes : Bytes) (now : ℕ)
    (raw_key : Bytes) (db : Tables) where
  store_admin_key-Creation :
      (k : ApiKey) (raw : Bytes)
      → generate_api_key sha256 random id_bytes now (codes "admin") ≡ Token.ok (k, raw)
      → (store_admin_key sqlite_store sha256 second k raw db).0 ≡ created raw_key
      → Creation sha256 random id_bytes now db raw_key
          (store_admin_key sqlite_store sha256 second k raw db).1
  unfolding store_admin_key sqlite_store create_api_key
  store_admin_key-Creation k raw made e =
      elim (Option-cases (find_row (has_key (λ (r : KeyRow). r.key_hash) k.key_hash) db.api_keys)) [
        | inr (row, taken) ↦ absurd (ground arith)
        | inl new ↦ record {
          key = k;
          generated = (let same : raw ≡ raw_key = ground arith in rw same at made);
          new_hash = new;
          inserted = ground arith;
        }
      ]

  ensure_admin_key-Creation :
      (ensure_admin_key sqlite_store sha256 first second random id_bytes now db).0 ≡ created raw_key
      → Creation sha256 random id_bytes now db raw_key
          (ensure_admin_key sqlite_store sha256 first second random id_bytes now db).1
  unfolding ensure_admin_key
  ensure_admin_key-Creation e = from_list (sqlite_store.list_api_keys first db) e
    where
      from_generated :
          (g : Token.Result (ApiKey × Bytes))
          → generate_api_key sha256 random id_bytes now (codes "admin") ≡ g
          → let out : AdminStart × Tables = elim g [
            | Token.err e ↦ (stopped, db)
            | Token.ok (k, raw) ↦ store_admin_key sqlite_store sha256 second k raw db
          ] in
            out.0 ≡ created raw_key → Creation sha256 random id_bytes now db raw_key out.1
      from_generated (Token.err x) made e = absurd (cc)
      from_generated (Token.ok (k, raw)) made e = store_admin_key-Creation k raw made e

      from_list :
          (l : Result (List ApiKey))
          → let out : AdminStart × Tables = elim l [
            | err e ↦ (stopped, db)
            | ok (k ∷ keys) ↦ (kept, db)
            | ok [] ↦ elim (generate_api_key sha256 random id_bytes now (codes "admin")) [
              | Token.err e ↦ (stopped, db)
              | Token.ok (k, raw) ↦ store_admin_key sqlite_store sha256 second k raw db
            ]
          ] in
            out.0 ≡ created raw_key → Creation sha256 random id_bytes now db raw_key out.1
      from_list (err x) e = absurd (cc)
      from_list (ok (k ∷ keys)) e = absurd (cc)
      from_list (ok []) e = from_generated _ refl e

pub keeps_keys :
    (sha256 : Hash) (first second : Call) (random : Random) (id_bytes : Bytes) (now : ℕ)
    (db : Tables)
    → IsUp first
    → order_desc (λ (r : KeyRow). r.created_at) db.api_keys ≢ []
    → ensure_admin_key sqlite_store sha256 first second random id_bytes now db ≡ (kept, db)
unfolding ensure_admin_key sqlite_store list_api_keys
keeps_keys sha256 first second random id_bytes now db up some_key =
    ap after_list (listing (up 0))
    ∙ from (order_desc (λ (r : KeyRow). r.created_at) db.api_keys) some_key
  where
    after_list : Result (List ApiKey) → AdminStart × Tables
    after_list l = elim l [
      | err e ↦ (stopped, db)
      | ok (k ∷ keys) ↦ (kept, db)
      | ok [] ↦ elim (generate_api_key sha256 random id_bytes now (codes "admin")) [
        | Token.err e ↦ (stopped, db)
        | Token.ok (k, raw_key) ↦ store_admin_key sqlite_store sha256 second k raw_key db
      ]
    ]

    listing :
        first.fails 0 ≡ false
        → list_api_keys first db
          ≡ ok (map scan_key (order_desc (λ (r : KeyRow). r.created_at) db.api_keys))
    listing well = rw well

    from : (rows : List KeyRow) → rows ≢ [] → after_list (ok (map scan_key rows)) ≡ (kept, db)
    from [] ne = absurd (ne refl)
    from (r ∷ rows) ne = refl

pub verify_found :
    (call : Call) (key_hash : Bytes) (row : KeyRow) (db : Tables)
    → IsUp call
    → find_row (has_key (λ (r : KeyRow). r.key_hash) key_hash) db.api_keys ≡ some row
    → (verify_api_key call key_hash db).0
      ≡ ok (some (record (scan_key row) { last_used = some call.now }))
unfolding verify_api_key
verify_found call key_hash row db up found = rw (up 0, found)

pub ensure_admin_key-IsKnown :
    (sha256 : Hash) (first second : Call) (random : Random) (id_bytes : Bytes) (now : ℕ)
    (raw_key : Bytes) (db : Tables)
    → (ensure_admin_key sqlite_store sha256 first second random id_bytes now db).0 ≡ created raw_key
    → (row : KeyRow) × (find_row
          (has_key (λ (r : KeyRow). r.key_hash) (hash_api_key sha256 raw_key))
          (ensure_admin_key sqlite_store sha256 first second random id_bytes now db).1.api_keys
        ≡ some row)
ensure_admin_key-IsKnown sha256 first second random id_bytes now raw_key db e =
    let c = ensure_admin_key-Creation sha256 first second random id_bytes now raw_key db e in
    let (same_hash, _, _) =
      hash_api_key-generate sha256 random id_bytes (codes "admin") now raw_key c.key c.generated in
    rw (c.inserted, same_hash)
      (
        key_row c.key,
        find_row-append (λ (r : KeyRow). r.key_hash) db.api_keys (key_row c.key)
            (find_row-none _ _ db.api_keys c.new_hash),
      )
