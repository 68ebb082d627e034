-- ===== src/Tests/Listen.antt =====
-- A first start of the server that listens with the certificates it finds.
use rmm.Base.{◌≡◌, refl, List, All, [], ◌∷◌, codes, text_eq, true, false, none, some}
use rmm.Go.Os.{read_file}
use rmm.Go.Filepath.{join, non_empty, clean, with_slashes, resolve, up}
use rmm.Go.Strings.{split, onto_first, has_prefix}
use rmm.Store.Table.{find_row, order_desc}
use rmm.Store.Sqlite.{Tables, sqlite_store, migrated, list_api_keys, create_api_key}
use rmm.Security.Hex.{encode}
use rmm.Security.Token.{generate_api_key}
use rmm.Security.Platform.KeyFile.{
  load_or_create_platform, generate_platform_key, write_key, new_platform,
}
use rmm.Security.Tls.{load_or_generate_tls, load_files, file_exists, read_ca_cert, tls_paths}
use rmm.Server.Admin.{created, ensure_admin_key, store_admin_key}
use rmm.Server.State.{Server, new_server}
use rmm.Server.Start.{
  Flags, World, Listener, over_tls, running, start, mode_of, listen_addr, setup_tls, self_signed,
  listen, serve_web, web_dir_of, open_store, with_platform,
}
use rmm.Server.Start.Modes.{IsAsked, start-IsAsked}
use rmm.Tests.Samples.{checksum, call}
use rmm.Tests.Keys.{keys, empty_disk}
use rmm.Tests.Admin.{random, raw_key, db}
use rmm.Tests.Start.{certs, generation, old_pair, old_config}

abbrev flags : Flags
flags = record {
  addr = codes ":8443";
  web_dir = codes "web";
  data_dir = codes "data";
  certs_dir = codes "certs";
  insecure = false;
  acme_domain = [];
  cert_file = [];
  key_file = [];
}

abbrev world : World Tables
world = record {
  data_dir_made = true;
  certs_dir_made = true;
  disk = empty_disk;
  tls = record { custom_cert = none; custom_key = none; files = old_pair; generation = generation };
  database = some migrated;
  list_call = call;
  create_call = call;
  random = random;
  id_bytes = codes "id";
  now = 42;
  file_system = record {
    dir = λ path. path;
    abs = λ path. none;
    is_dir = λ path. false;
    exists = λ path. false;
  };
  arg0 = codes "server";
  executable = none;
}

abbrev hub : Server Tables
hub = new_server db (new_platform keys (keys.generate_key (codes "noise"))) (some (codes "CA"))

abbrev listeners : List Listener
listeners = over_tls (codes ":8443") (some old_config) ∷ []

starts :
    start sqlite_store checksum keys certs flags world
    ≡ running (created raw_key) (codes "web") hub listeners
unfolding start with_platform open_store serve_web web_dir_of mode_of listen_addr setup_tls
    self_signed listen load_or_create_platform generate_platform_key write_key load_or_generate_tls
    load_files file_exists read_ca_cert read_file tls_paths join non_empty clean with_slashes
    resolve up split onto_first has_prefix new_server ensure_admin_key sqlite_store migrated
    list_api_keys generate_api_key store_admin_key create_api_key find_row order_desc encode text_eq
starts = refl

start-IsAsked_example : All (IsAsked flags) listeners
start-IsAsked_example =
    start-IsAsked sqlite_store checksum keys certs flags world (created raw_key) (codes "web") hub
      listeners starts

-- Elements are cleaned as they are joined.
join_cleans :
    (join (codes "certs/./a/../" ∷ [] ∷ codes "ca.crt" ∷ []) ≡ codes "certs/ca.crt")
    × (join (codes "/x/../../" ∷ codes "y" ∷ []) ≡ codes "/y")
    × (join (codes "../" ∷ codes ".." ∷ codes "web" ∷ []) ≡ codes "../../web")
    × (join ([] ∷ []) ≡ [])
unfolding join non_empty clean with_slashes resolve up split onto_first has_prefix text_eq
join_cleans = (refl, refl, refl, refl)
