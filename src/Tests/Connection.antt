-- ===== src/Tests/Connection.antt =====
-- Connecting to a server that answers, through a jump host and with a password command.
use Prim.Native.String.{◌++◌}
use terraform_provider_postg.Base.{
  List, String, [], ◌∷◌, arith, none, true, false, refl, ℕ, ◌+◌, ◌=ℕ◌, ◌<◌, ◌≡◌,
}
use terraform_provider_postg.Connection.{CommandOutcome, Config, Deed, Outside, Process}
use terraform_provider_postg.Connection.Configure.{ProviderAttrs, provider_configure}
use terraform_provider_postg.Connection.Connect.{connect, connect_client}
use terraform_provider_postg.Connection.Connect.Preserved.{connect_client-config}
use terraform_provider_postg.Connection.Params.{password_cache_key}
use terraform_provider_postg.Connection.Params.Memo.{
  Implements, memo, fetched_by, known_to, get_cached_password-Implements,
}
use terraform_provider_postg.Connection.Connect.Again.{
  RangesShort, connect-again, ranged_by, reused_by,
}
use terraform_provider_postg.Connection.Connect.Registered.{
  IsRegistered, RegistryKeyed, connect-IsRegistered, connect_client-RegistryKeyed,
}
use terraform_provider_postg.Connection.Open.Versions.{
  IsWord, behind_asking, fingerprint_capabilities-version,
}
use terraform_provider_postg.Connection.Open.{fingerprint_capabilities, open_connection}
use terraform_provider_postg.Connection.Open.Attempts.{EndsWithin, open_connection-EndsWithin}
use terraform_provider_postg.Connection.Params.{conn_text, get_cached_password}
use terraform_provider_postg.Connection.Params.Passwords.{for_user, get_cached_password-shared}
use terraform_provider_postg.Connection.Params.UserInfo.{
  BehindScheme, read_user_info, read_user_info-conn_text,
}
use terraform_provider_postg.Connection.Tunnel.{connect_to_jump_host}
use terraform_provider_postg.Connection.Tunnel.Ports.{Configured, provider_configure-Configured}
use terraform_provider_postg.Connection.Tunnel.Tries.{TunnelEnds, connect_to_jump_host-TunnelEnds}
use terraform_provider_postg.Effect.{Session, ok, row}
use terraform_provider_postg.Effect.OnOk.{OnOk}
use terraform_provider_postg.Tests.Server.{server}
use terraform_provider_postg.Text.Decimal.{digit, pos}
use terraform_provider_postg.Text.Escape.Reading.{bytes_with_plus}

abbrev secret : CommandOutcome
secret = record { stdout = "secret word"; stderr = ""; run_error = none }

-- Versions are numbers here, and everything works.
abbrev outside : Outside ℕ
outside = record {
  in_range = λ range v. true;
  parse = λ s. (9, none);
  parse_tolerant = λ s. (14, none);
  equals = λ v w. v =ℕ w;
  is_print = λ n. true;
  key_order = λ ds ks. ks;
  run_command = λ ds command args. secret;
  open_error = λ ds scheme dsn. none;
  ping_error = λ ds dsn. none;
  query_error = λ ds dsn. none;
  scan_version = λ ds dsn. row "PostgreSQL 14.0 on x86_64";
  intn = λ ds n. 0;
  start_error = λ ds args. none;
  ssh_exit = λ ds. none;
  ssh_output = λ ds. "";
  dial_error = λ ds port. none;
}

abbrev config_of_test : Config ℕ
config_of_test = record {
  scheme = "postgres";
  host = "db";
  port = 5432;
  username = "admin";
  password = "word";
  config_database_username = "";
  superuser = true;
  ssl_mode = "require";
  application_name = "Terraform provider";
  connect_timeout_sec = pos 180;
  max_conns = pos 20;
  expected_version = 9;
  ssl_client_cert = none;
  ssl_root_cert_path = "";
  jump_host = "jump";
  tunneled_port = 10000;
  password_command = "cat password";
  fallback_to_static_password = false;
}

abbrev started : Session (Process ℕ)
started = record {
  res = record {
    config = config_of_test;
    database_name = "postgres";
    db_registry = [];
    password_cache = [];
    random_port_cache = [];
    running_commands = [];
    deeds = [];
  };
  log = [];
}

abbrev attrs_of_test : ProviderAttrs
attrs_of_test = record {
  attr_scheme = "postgres";
  attr_host = "db";
  attr_port = 5432;
  attr_database = "postgres";
  attr_username = "admin";
  attr_password = "word";
  attr_password_command = "";
  attr_database_username = "";
  attr_superuser = true;
  attr_sslmode = "";
  attr_ssl_mode = "require";
  clientcert = [];
  attr_sslrootcert = "";
  attr_connect_timeout = pos 180;
  attr_max_connections = pos 20;
  attr_expected_version = "14";
  attr_jumphost = "jump";
}

draws_below : (ds : List Deed) (n : ℕ) → 0 < n → outside.intn ds n < n
draws_below ds n h = h

open_connection-EndsWithin_example :
    EndsWithin outside "postgres://db" 10 0
      (open_connection outside "postgres" "postgres://db" server started)
open_connection-EndsWithin_example =
    open_connection-EndsWithin outside "postgres://db" server started

connect_to_jump_host-TunnelEnds_example :
    TunnelEnds config_of_test [] (10 + 0) (connect_to_jump_host outside server started)
connect_to_jump_host-TunnelEnds_example = connect_to_jump_host-TunnelEnds outside server started

provider_configure-Configured_example :
    Configured outside server attrs_of_test
      (provider_configure outside attrs_of_test server started)
provider_configure-Configured_example =
    provider_configure-Configured outside server draws_below attrs_of_test started tt

connect_client-config_example :
    (connect_client outside server started).1.res.config ≡ config_of_test
connect_client-config_example = connect_client-config outside server started refl

connect_client-RegistryKeyed_example : RegistryKeyed (connect_client outside server started).1.res
connect_client-RegistryKeyed_example = connect_client-RegistryKeyed outside server started tt

connect-IsRegistered_example : OnOk (IsRegistered outside) (connect outside server started)
connect-IsRegistered_example = connect-IsRegistered outside server started tt

-- The user "5admin" on port 54 and the user "admin" on port 545.
get_cached_password-shared_example :
    OnOk
      (λ password t. get_cached_password outside server t ≡ (ok password, t))
      (get_cached_password outside server started)
    × OnOk
        (λ password t.
          get_cached_password outside server (for_user 545 "admin" t)
          ≡ (ok password, for_user 545 "admin" t))
        (get_cached_password outside server (for_user 54 (digit 5 ++ "admin") started))
get_cached_password-shared_example =
    get_cached_password-shared outside server started 54 5 "admin" (omega arith) (omega arith)

read_user_info-conn_text_example :
    (s : String) × BehindScheme config_of_test
      (conn_text config_of_test "secret word" "app" ("sslmode=require" ∷ []))
      s
    × (read_user_info s ≡ (bytes_with_plus "admin", bytes_with_plus "secret word"))
read_user_info-conn_text_example =
    read_user_info-conn_text config_of_test "secret word" "app" ("sslmode=require" ∷ [])

words : IsWord "PostgreSQL"
words = (refl, (refl, (refl, (refl, (refl, (refl, (refl, (refl, (refl, (refl, tt))))))))))

number : IsWord "14.0"
number = (refl, (refl, (refl, (refl, tt))))

answers_pings : (ds : List Deed) (dsn : String) → outside.query_error ds dsn ≡ none
answers_pings ds dsn = refl

ranges_short : RangesShort outside
ranges_short = record { none_visited = λ ds. refl; one_visited = λ ds key. refl }

-- A client of a Google Cloud server, with a password command.
abbrev cloud : Session (Process ℕ)
cloud = record started {
  res = record (started.res) { config = record config_of_test { scheme = "gcppostgres" } };
}

connect-again_example :
    OnOk
      (λ conn t. connect outside server t ≡ (ok conn, reused_by conn (ranged_by t)))
      (connect outside server cloud)
connect-again_example =
    connect-again outside server ranges_short answers_pings cloud tt (refl, refl, refl)

get_cached_password-Implements_example :
    Implements
      (memo
        (password_cache_key config_of_test)
        (fetched_by outside server started)
        (known_to started))
      (get_cached_password outside server started)
get_cached_password-Implements_example = get_cached_password-Implements outside server started

fingerprint_capabilities-version_example :
    fingerprint_capabilities outside "postgres://db" server started
    ≡ (ok 14, behind_asking "postgres://db" started)
fingerprint_capabilities-version_example =
    fingerprint_capabilities-version outside server "postgres://db" "PostgreSQL" "14.0" "on x86_64"
      " " 14 started (words, refl) (number, refl) refl refl refl
