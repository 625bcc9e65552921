-- ===== src/Role/Handlers.antt =====
-- Create, read, update, delete and exists of `postgresql_role`.
pub mod Ending
use Prim.Native.String.{◌++◌}
use terraform_provider_postg.Role.{RoleData}
use terraform_provider_postg.Base.{Bool, String, [], false, if◌then◌else◌, true, ℕ, ◌∷◌}
use terraform_provider_postg.Effect.{
  M, Rows, Scan, ask, crash, current, exec_sql, fail, failed, no_rows, pool, pure, query_rows,
  query_string, refused, row, rows, str, txn, wrap, ◌>>=◌, ◌>>◌,
}
use terraform_provider_postg.Helpers.Catalog.{pg_lock_role}
use terraform_provider_postg.Helpers.Membership.{with_roles_granted}
use terraform_provider_postg.Helpers.Transactions.{commit_txn, with_txn}
use terraform_provider_postg.Role.Create.{create_role_query}
use terraform_provider_postg.Role.Members.{
  alter_search_path, grant_roles, revoke_roles, set_idle_in_transaction_session_timeout,
  set_statement_timeout,
}
use terraform_provider_postg.Role.Read.{resource_role_read_impl, set_id}
use terraform_provider_postg.Role.Update.{alter_role}

-- The settings after CREATE ROLE, and the last ones of an update.
unfoldable pub role_settings : ℕ → M RoleData (Unit {0})
role_settings t = do
  grant_roles t
  alter_search_path t
  set_statement_timeout t
  set_idle_in_transaction_session_timeout t

-- CREATE ROLE and its settings, in the transaction.
unfoldable pub run_create_role : ℕ → M RoleData (Unit {0})
run_create_role t = do
  env ← ask
  d ← current
  wrap ("error creating role " ++ d.attrs.name) (exec_sql (txn t) (create_role_query env d.attrs))
  role_settings t

create_new : M RoleData (Unit {0})
create_new = do
  d ← current
  with_txn "" (λ t. do
    run_create_role t
    wrap "could not commit transaction" (commit_txn t)
    set_id d.attrs.name
    resource_role_read_impl)

-- `result.Close()` is deferred above the test of `err`, as in `getTablesOwner`.
role_found : Rows String → M RoleData Bool
role_found (refused e) = crash
role_found (rows []) = pure false
role_found (rows (cell ∷ cells)) = pure true

unfoldable pub resource_role_create : M RoleData (Unit {0})
unfolding create_new role_found
resource_role_create = do
  d ← current
  if d.attrs.create_if_not_exists
      then (do
        r ← query_rows pool "SELECT 1 FROM pg_roles WHERE rolname = $1" (str d.attrs.name ∷ [])
        exists ← role_found r
        if exists then (do set_id d.attrs.name; resource_role_read_impl) else create_new)
      else create_new

-- What a delete does with the objects of the role.
reassign_owned : ℕ → String → M RoleData (Unit {0})
reassign_owned t role_name = do
  env ← ask
  wrap ("could not reassign owned by role " ++ (role_name ++ (" to " ++ env.database_username))) (
      exec_sql (txn t) (
        "REASSIGN OWNED BY "
        ++ (env.quote_identifier role_name
            ++ (" TO " ++ env.quote_identifier env.database_username))))
  wrap ("could not drop owned by role " ++ role_name)
      (exec_sql (txn t) ("DROP OWNED BY " ++ env.quote_identifier role_name))

-- The statements of a delete, in its transaction.
unfoldable pub drop_role : ℕ → M RoleData (Unit {0})
unfolding reassign_owned
drop_role t = do
  env ← ask
  d ← current
  pg_lock_role (txn t) d.attrs.name
  (if d.attrs.skip_reassign_owned
      then pure tt
      else with_roles_granted (txn t) (d.attrs.name ∷ []) (reassign_owned t d.attrs.name))
  (if d.attrs.skip_drop_role
      then pure tt
      else wrap ("could not delete role " ++ d.attrs.name)
          (exec_sql (txn t) ("DROP ROLE " ++ env.quote_identifier d.attrs.name)))

unfoldable pub resource_role_delete : M RoleData (Unit {0})
resource_role_delete =
    with_txn "" (λ t. do drop_role t; wrap "Error committing schema" (commit_txn t); set_id "")

-- An error other than ErrNoRows is returned as it is.
exists_by_id : Scan String → M RoleData Bool
exists_by_id no_rows = pure false
exists_by_id (failed e) = fail e
exists_by_id (row _) = pure true

unfoldable pub resource_role_exists : M RoleData Bool
unfolding exists_by_id
resource_role_exists = do
  d ← current
  r ← query_string pool "SELECT rolname FROM pg_catalog.pg_roles WHERE rolname=$1" (str d.id ∷ [])
  exists_by_id r

-- The statements of an update, in its transaction.
unfoldable pub update_role : ℕ → M RoleData (Unit {0})
update_role t = do
  d ← current
  pg_lock_role (txn t) d.old.name
  alter_role t
  revoke_roles t
  role_settings t

unfoldable pub resource_role_update : M RoleData (Unit {0})
resource_role_update = with_txn "" (λ t. do
  update_role t
  wrap "could not commit transaction" (commit_txn t)
  resource_role_read_impl)
