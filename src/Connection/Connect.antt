-- ===== src/Connection/Connect.antt =====
-- `Client.Connect` of postgresql/config.go.
pub mod Preserved
pub mod Registered
pub mod Again
use Prim.Native.String.{◌++◌}
use terraform_provider_postg.Base.{
  List, Bool, Option, String, [], none, some, true, false, if◌then◌else◌, not, ◌&&◌, ◌==◌, ◌∷◌,
}
use terraform_provider_postg.Connection.{
  Process, Config, Outside, DbConnection, closed, ranged, reused, set_max_open_conns, record_deed,
}
use terraform_provider_postg.Connection.Open.{open_connection, detect_version, max_connections}
use terraform_provider_postg.Connection.Params.{conn_str, should_use_jump_host}
use terraform_provider_postg.Connection.Tunnel.{connect_to_jump_host}
use terraform_provider_postg.Effect.{
  Error, M, Result, crash, current, defer, driver, err, fail, modify, ok, or_crash, or_fail, panic,
  pure, text, wrap, wrapped, wrapped_between, ◌>>=◌, ◌>>◌,
}
use terraform_provider_postg.Map.{keys, Map, get, put, remove}
use terraform_provider_postg.Text.{nonempty}

-- `errors.As(err, &driverError)` and its class.
abbrev pub is_invalid_auth : Error → Bool
is_invalid_auth (text msg) = false
is_invalid_auth (wrapped msg e) = is_invalid_auth e
is_invalid_auth (wrapped_between msg e behind) = is_invalid_auth e
is_invalid_auth (driver class message) = class == "28"

module _ {Version : Type 0} where
  -- The rows of a query that failed are nil, and their deferred `Close` panics.
  reuse : String → DbConnection Version → Option Error → M (Process Version) (DbConnection Version)
  reuse dsn conn none = pure conn
  reuse dsn conn (some e) = do
    modify (λ p. record p { db_registry = remove dsn p.db_registry })
    crash

  abbrev pub use_fallback : Config Version → Bool
  use_fallback c =
      not c.fallback_to_static_password && (nonempty c.password && nonempty c.password_command)

  abbrev pub set_fallback : Bool → Process Version → Process Version
  set_fallback b p = record p { config = record (p.config) { fallback_to_static_password = b } }

module _ {Version : Type 0} (out : Outside Version) where
  close_one : Option (DbConnection Version) → M (Process Version) (Unit {0})
  close_one none = pure tt
  close_one (some conn) = record_deed (closed conn.dsn)

  close_all : List String → M (Process Version) (Unit {0})
  unfolding close_one
  close_all [] = pure tt
  close_all (dsn ∷ rest) = do p ← current; close_one (get dsn p.db_registry); close_all rest

  -- When the provider's context ends. An error of a `Close` is logged only, and the registry keeps
  -- its entries.
  unfoldable pub close_connections : M (Process Version) (Unit {0})
  unfolding close_all
  close_connections = do
    p ← current
    record_deed ranged
    close_all (out.key_order p.deeds (keys p.db_registry))

  new_connection : String → M (Process Version) (DbConnection Version)
  new_connection dsn = do
    p ← current
    let c = p.config
    e ← open_connection out c.scheme dsn
    wrap
        ("Error connecting to PostgreSQL server "
          ++ (c.host ++ (" (scheme: " ++ (c.scheme ++ ")"))))
        (or_fail e)
    record_deed (set_max_open_conns dsn (max_connections c.max_conns))
    version ← detect_version out dsn
    let conn : DbConnection Version = record { dsn = dsn; conn_version = version }
    modify (λ q. record q { db_registry = put dsn conn q.db_registry })
    pure conn

  unfoldable pub found_or_new :
      String → Option (DbConnection Version) → M (Process Version) (DbConnection Version)
  unfolding reuse new_connection
  found_or_new dsn (some conn) = do
    p ← current
    record_deed (reused dsn)
    reuse dsn conn (out.query_error p.deeds dsn)
  found_or_new dsn none = new_connection dsn

  unfoldable pub connect : M (Process Version) (DbConnection Version)
  unfolding found_or_new
  connect = do
    p ← current
    dsn ← wrap "failed to get connection string" (conn_str out p.database_name)
    q ← current
    found_or_new dsn (get dsn q.db_registry)

  -- The flag is reset however the second attempt ends, and an error of it is a panic.
  unfoldable pub retry_static : M (Process Version) (DbConnection Version)
  retry_static = do
    modify (set_fallback true)
    defer (modify (set_fallback false)) (or_crash connect)

  after_first : Result (DbConnection Version) → M (Process Version) (DbConnection Version)
  unfolding retry_static
  after_first (ok conn) = pure conn
  after_first panic = crash
  after_first (err e) = do
    p ← current
    if is_invalid_auth e && use_fallback p.config then retry_static else fail (wrapped "" e)

  unfoldable pub try_connect_with_fallback : M (Process Version) (DbConnection Version)
  unfolding after_first
  try_connect_with_fallback env s = let (r, s') = connect env s in after_first r env s'

  unfoldable pub connect_client : M (Process Version) (DbConnection Version)
  connect_client = do
    p ← current
    (if should_use_jump_host p.config
        then wrap "failed to open a tunnel to jumphost" (connect_to_jump_host out)
        else pure tt)
    try_connect_with_fallback
