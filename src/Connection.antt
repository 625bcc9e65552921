-- ===== src/Connection.antt =====
-- postgresql/config.go, jumphost.go, command.go and the configuration of provider.go: how the
-- provider comes to its connections.
-- The programs are those of Effect; their resource data is the state of the provider's process, and
-- the log of statements is not theirs. `deeds` is what they have done, the newest first.
pub mod Stable
pub mod Params
pub mod Open
pub mod Connect
pub mod Tunnel
pub mod Configure
use terraform_provider_postg.Base.{Bool, List, Option, String, none, ℕ, ◌∷◌}
use terraform_provider_postg.Effect.{
  Error, Feature, M, Scan, modify, feature_create_role_with, feature_db_allow_connections,
  feature_db_is_template, feature_fallback_application_name, feature_rls,
  feature_schema_create_if_not_exist, feature_replication, feature_extension, feature_privileges,
  feature_force_drop_database, feature_pid,
}
use terraform_provider_postg.Map.{Map}
use terraform_provider_postg.Text.Decimal.{ℤ}

pub record ClientCertificateConfig : Type 0 where
  pub certificate_path : String
  pub key_path : String

-- The fields that the code reads, with natural numbers for ports. `Version` is `semver.Version`.
pub record Config (Version : Type 0) : Type 0 where
  pub scheme : String
  pub host : String
  pub port : ℕ
  pub username : String
  pub password : String
  pub config_database_username : String
  pub superuser : Bool
  pub ssl_mode : String
  pub application_name : String
  pub connect_timeout_sec : ℤ
  pub max_conns : ℤ
  pub expected_version : Version
  pub ssl_client_cert : Option ClientCertificateConfig
  pub ssl_root_cert_path : String
  pub jump_host : String
  pub tunneled_port : ℕ
  pub password_command : String
  pub fallback_to_static_password : Bool

pub data Deed : Type 0 where
  ran : (command : String) → List String → Deed
  opened pinged reused closed : (dsn : String) → Deed
  set_max_open_conns : (dsn : String) → ℕ → Deed
  asked_version : (dsn : String) → Deed
  drew waited dialled : ℕ → Deed
  started_ssh : List String → Deed
  ranged : Deed

-- A connection pool with the version of its server.
pub record DbConnection (Version : Type 0) : Type 0 where
  pub dsn : String
  pub conn_version : Version

-- One `Client`, and the maps that all clients of the process share.
pub record Process (Version : Type 0) : Type 0 where
  pub config : Config Version
  pub database_name : String
  pub db_registry : Map (DbConnection Version)
  pub password_cache : Map String
  pub random_port_cache : Map ℕ
  pub running_commands : List ℕ
  pub deeds : List Deed

pub record CommandOutcome : Type 0 where
  pub stdout : String
  pub stderr : String
  pub run_error : Option Error

-- What is not under postgresql/: the operating system, the server and the libraries. Their answers
-- may depend on all that was done before.
pub record Outside (Version : Type 0) : Type 0 where
  -- `semver.MustParseRange` at a version, `semver.Parse`, `semver.ParseTolerant`, `Equals`
  pub in_range : String → Version → Bool
  pub parse : String → Version × Option Error
  pub parse_tolerant : String → Version × Option Error
  pub equals : Version → Version → Bool
  -- `strconv.IsPrint`
  pub is_print : ℕ → Bool
  -- the order in which a `range` visits the keys of a map, another one each time
  pub key_order : List Deed → List String → List String
  -- `exec.CommandContext(…).Run`, `sql.Open` or gocloud's `postgres.Open`, `db.Ping`, `db.Query`
  pub run_command : List Deed → String → List String → CommandOutcome
  pub open_error : List Deed → (scheme dsn : String) → Option Error
  pub ping_error : List Deed → String → Option Error
  pub query_error : List Deed → String → Option Error
  pub scan_version : List Deed → String → Scan String
  -- `rand.Intn`
  pub intn : List Deed → ℕ → ℕ
  -- `cmd.Start` of ssh, the end of ssh, with an error or without, if it comes before the next 100
  -- milliseconds are over, its output, and `net.Dial`
  pub start_error : List Deed → List String → Option Error
  pub ssh_exit : List Deed → Option Error
  pub ssh_output : List Deed → String
  pub dial_error : List Deed → ℕ → Option Error

module _ {Version : Type 0} where
  unfoldable pub record_deed : Deed → M (Process Version) (Unit {0})
  record_deed deed = modify λ p. record p { deeds = deed ∷ p.deeds }

-- The map `featureSupported`. It has every feature, so looking one up never panics.
abbrev pub feature_range : Feature → String
feature_range feature_create_role_with = ">=8.1.0"
feature_range feature_db_allow_connections = ">=9.5.0"
feature_range feature_db_is_template = ">=9.5.0"
feature_range feature_fallback_application_name = ">=9.0.0"
feature_range feature_schema_create_if_not_exist = ">=9.3.0"
feature_range feature_rls = ">=9.5.0"
feature_range feature_replication = ">=9.1.0"
feature_range feature_extension = ">=9.1.0"
feature_range feature_privileges = ">=9.0.0"
feature_range feature_force_drop_database = ">=13.0.0"
feature_range feature_pid = ">=9.2.0"

module _ {Version : Type 0} (out : Outside Version) where
  abbrev pub feature_supported : Feature → Version → Bool
  feature_supported name version = out.in_range (feature_range name) version
