-- ===== src/Database/Changes.antt =====
-- The statements of an update in postgresql/resource_postgresql_database.go, one for each attribute
-- that changed, and the statements before a drop.
use Prim.Native.String.{◌++◌}
use terraform_provider_postg.Base.{Bool, String, bool_changed, if◌then◌else◌, not, ◌==◌, ◌||◌}
use terraform_provider_postg.Database.{DatabaseData}
use terraform_provider_postg.Database.Create.{is_default}
use terraform_provider_postg.Database.Owner.{as_owner}
use terraform_provider_postg.Database.Read.{set_id}
use terraform_provider_postg.Text.Format.{format_quoted}
use terraform_provider_postg.Effect.{
  M, ask, current, exec_sql, fail, feature_db_allow_connections, feature_db_is_template,
  feature_pid, pool, pure, text, wrap, ◌>>=◌, ◌>>◌,
}
use terraform_provider_postg.Text.{format_bool, nonempty}
use terraform_provider_postg.Text.Decimal.{format_int, int_eq}

alter_database : String → String → String → M DatabaseData (Unit {0})
alter_database msg name change = do
  env ← ask
  wrap msg (exec_sql pool ("ALTER DATABASE " ++ (env.quote_identifier name ++ (" " ++ change))))

unfoldable pub set_db_name : M DatabaseData (Unit {0})
unfolding alter_database
set_db_name = do
  env ← ask
  d ← current
  if d.old.name == d.attrs.name
      then pure tt
      else if not (nonempty d.attrs.name)
      then fail (text "Error setting database name to an empty string")
      else (do
        alter_database "Error updating database name" d.old.name
            ("RENAME TO " ++ env.quote_identifier d.attrs.name)
        set_id d.attrs.name)

unfoldable pub set_db_owner : M DatabaseData (Unit {0})
unfolding alter_database
set_db_owner = do
  env ← ask
  d ← current
  if d.old.owner == d.attrs.owner
      then pure tt
      else if not (nonempty d.attrs.owner)
      then pure tt
      else as_owner d.attrs.owner env.database_username (
          alter_database "Error updating database OWNER" d.attrs.name
            ("OWNER TO " ++ env.quote_identifier d.attrs.owner))

unfoldable pub set_db_tablespace : M DatabaseData (Unit {0})
unfolding alter_database
set_db_tablespace = do
  env ← ask
  d ← current
  let name = d.attrs.tablespace_name
  if d.old.tablespace_name == name
      then pure tt
      else alter_database "Error updating database TABLESPACE" d.attrs.name (
          if not (nonempty name) || is_default name
          then "RESET TABLESPACE"
          else "SET TABLESPACE " ++ env.quote_identifier name)

unfoldable pub set_db_conn_limit : M DatabaseData (Unit {0})
unfolding alter_database
set_db_conn_limit = do
  d ← current
  if int_eq d.old.connection_limit d.attrs.connection_limit
      then pure tt
      else alter_database "Error updating database CONNECTION LIMIT" d.attrs.name
          ("CONNECTION LIMIT = " ++ format_int d.attrs.connection_limit)

not_supported : String → M DatabaseData (Unit {0})
not_supported property = do
  env ← ask
  fail (
      text (
        "PostgreSQL client is talking with a server ("
        ++ (format_quoted env.is_print env.version
            ++ (") that does not support database " ++ property))))

unfoldable pub set_db_allow_conns : M DatabaseData (Unit {0})
unfolding alter_database not_supported
set_db_allow_conns = do
  env ← ask
  d ← current
  if not (bool_changed d.old.allow_connections d.attrs.allow_connections)
      then pure tt
      else if not (env.supported feature_db_allow_connections)
      then not_supported "ALLOW_CONNECTIONS"
      else alter_database "Error updating database ALLOW_CONNECTIONS" d.attrs.name
          ("ALLOW_CONNECTIONS " ++ format_bool d.attrs.allow_connections)

unfoldable pub do_set_db_is_template : String → Bool → M DatabaseData (Unit {0})
unfolding alter_database not_supported
do_set_db_is_template name is_template = do
  env ← ask
  if not (env.supported feature_db_is_template)
      then not_supported "IS_TEMPLATE"
      else alter_database "Error updating database IS_TEMPLATE" name
          ("IS_TEMPLATE " ++ format_bool is_template)

unfoldable pub set_db_is_template : M DatabaseData (Unit {0})
unfolding do_set_db_is_template
set_db_is_template = do
  d ← current
  if not (bool_changed d.old.is_template d.attrs.is_template)
      then pure tt
      else wrap "Error updating database IS_TEMPLATE"
          (do_set_db_is_template d.attrs.name d.attrs.is_template)

-- New connections are blocked first. The name stands unquoted in the second statement's literal.
unfoldable pub terminate_b_connections : String → M DatabaseData (Unit {0})
terminate_b_connections name = do
  env ← ask
  (if env.supported feature_db_allow_connections
      then wrap "Error blocking connections to database" (
          exec_sql pool
            ("ALTER DATABASE " ++ (env.quote_identifier name ++ " ALLOW_CONNECTIONS false")))
      else pure tt)
  let pid = if env.supported feature_pid then "pid" else "procpid"
  wrap "Error terminating database connections" (
      exec_sql pool (
        "SELECT pg_terminate_backend("
        ++ (pid
            ++ (") FROM pg_stat_activity WHERE datname = '"
                ++ (name ++ ("' AND " ++ (pid ++ " <> pg_backend_pid()")))))))
