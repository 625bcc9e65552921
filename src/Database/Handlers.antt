-- ===== src/Database/Handlers.antt =====
-- Create, read, update, delete and exists of `postgresql_database`.
pub mod Ending
pub mod Unchanged
pub mod Dropping
use Prim.Native.String.{◌++◌}
use terraform_provider_postg.Base.{Bool, String, [], false, if◌then◌else◌, true, ◌&&◌, ◌∷◌}
use terraform_provider_postg.Database.{DatabaseData}
use terraform_provider_postg.Database.Changes.{
  do_set_db_is_template, set_db_allow_conns, set_db_conn_limit, set_db_is_template, set_db_name,
  set_db_owner, set_db_tablespace, terminate_b_connections,
}
use terraform_provider_postg.Database.Create.{create_database_query}
use terraform_provider_postg.Database.Owner.{as_owner}
use terraform_provider_postg.Database.Read.{resource_database_read_impl, set_id}
use terraform_provider_postg.Text.Format.{format_quoted}
use terraform_provider_postg.Effect.{
  M, Rows, ask, crash, current, exec_sql, feature_db_is_template, feature_force_drop_database, pool,
  pure, query_rows, refused, rows, str, txn, wrap, ◌>>=◌, ◌>>◌,
}
use terraform_provider_postg.Helpers.Catalog.{db_exists}
use terraform_provider_postg.Helpers.Transactions.{with_txn}
use terraform_provider_postg.Text.{nonempty}

-- `result.Close()` is deferred above the test of `err`, as in `getTablesOwner`.
database_found : Rows String → M DatabaseData Bool
database_found (refused e) = crash
database_found (rows []) = pure false
database_found (rows (cell ∷ cells)) = pure true

create_statement : M DatabaseData (Unit {0})
create_statement = do
  env ← ask
  d ← current
  wrap ("Error creating database " ++ format_quoted env.is_print d.attrs.name)
      (exec_sql pool (create_database_query env d.attrs))

-- Behind the lock and the membership: nothing is done for a database that exists.
create_body : M DatabaseData (Unit {0})
create_body = do
  d ← current
  if d.attrs.create_if_not_exists
      then (do
        r ← query_rows pool "SELECT 1 FROM pg_database WHERE datname = $1" (str d.attrs.name ∷ [])
        exists ← database_found r
        if exists then pure tt else create_statement)
      else create_statement

unfoldable pub create_database : M DatabaseData (Unit {0})
unfolding create_body create_statement database_found
create_database = do
  env ← ask
  d ← current
  if nonempty d.attrs.owner
      then as_owner d.attrs.owner env.database_username create_body
      else create_body

unfoldable pub resource_database_create : M DatabaseData (Unit {0})
resource_database_create = do
  create_database
  d ← current
  set_id d.attrs.name
  resource_database_read_impl

unfoldable pub resource_database_exists : M DatabaseData Bool
resource_database_exists = with_txn "" (λ t. do d ← current; db_exists (txn t) d.id)

unfoldable pub drop_body : M DatabaseData (Unit {0})
drop_body = do
  env ← ask
  d ← current
  (if env.supported feature_db_is_template && d.attrs.is_template
      then wrap "Error updating database IS_TEMPLATE during DROP DATABASE"
          (do_set_db_is_template d.attrs.name false)
      else pure tt)
  set_db_is_template
  terminate_b_connections d.attrs.name
  let force = if env.supported feature_force_drop_database then "WITH ( FORCE )" else ""
  wrap "Error dropping database"
      (exec_sql pool ("DROP DATABASE " ++ (env.quote_identifier d.attrs.name ++ (" " ++ force))))
  set_id ""

unfoldable pub resource_database_delete : M DatabaseData (Unit {0})
unfolding drop_body
resource_database_delete = do
  env ← ask
  d ← current
  if nonempty d.attrs.owner
      then as_owner d.attrs.owner env.database_username drop_body
      else drop_body

unfoldable pub resource_database_update : M DatabaseData (Unit {0})
resource_database_update = do
  set_db_name
  set_db_owner
  set_db_tablespace
  set_db_conn_limit
  set_db_allow_conns
  set_db_is_template
  resource_database_read_impl
