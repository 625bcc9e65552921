-- ===== src/Grant/Handlers.antt =====
-- Create, read, update and delete of `postgresql_grant`.
pub mod Ending
use Prim.Native.String.{◌++◌}
use terraform_provider_postg.Base.{
  Bool, Option, String, false, if◌then◌else◌, not, some, true, ℕ, ◌&&◌, ◌==◌, ◌||◌,
}
use terraform_provider_postg.Effect.{
  Error, Handle, M, ask, current, exec_sql, fail, modify, or_fail, feature_privileges, pure, text,
  txn, wrap, ◌>>=◌, ◌>>◌,
}
use terraform_provider_postg.Grant.{GrantData}
use terraform_provider_postg.Grant.Id.{generate_grant_id, get_roles_to_grant}
use terraform_provider_postg.Grant.Query.{create_grant_query, create_revoke_query, has_objects}
use terraform_provider_postg.Grant.Read.{read_role_privileges}
use terraform_provider_postg.Helpers.Catalog.{db_exists, public_role, role_exists, schema_exists}
use terraform_provider_postg.Helpers.Membership.{with_roles_granted}
use terraform_provider_postg.Helpers.Privileges.{validate_privileges}
use terraform_provider_postg.Helpers.Transactions.{commit_txn, with_txn}
use terraform_provider_postg.Text.{nonempty}

-- `featureSupported` fails: the resource is not supported.
unsupported : String → M GrantData (Unit {0})
unsupported resource = do
  env ← ask
  fail (
      text (
        resource
        ++ (" resource is not supported for this Postgres version (" ++ (env.version ++ ")"))))

require_privileges : M GrantData (Unit {0})
unfolding unsupported
require_privileges = do
  env ← ask
  if env.supported feature_privileges then pure tt else unsupported "postgresql_grant"

unfoldable pub set_id : String → M GrantData (Unit {0})
set_id id = modify (λ d. record d { id = id })

unfoldable pub grant_role_privileges : Handle → M GrantData (Unit {0})
grant_role_privileges h = do
  env ← ask
  d ← current
  if has_objects d.privileges then exec_sql h (create_grant_query env d d.privileges) else pure tt

unfoldable pub revoke_role_privileges : Handle → M GrantData (Unit {0})
revoke_role_privileges h = do
  env ← ask
  d ← current
  wrap "could not execute revoke query" (exec_sql h (create_revoke_query env d))

module _ {D : Type 0} where
  -- The schema of any object but a database must exist in that database.
  check_schema : String → String → String → M D Bool
  check_schema database schema object_type =
      if not (object_type == "database") && nonempty schema
      then with_txn database (λ t. schema_exists (txn t) schema)
      else pure true

  check_database : ℕ → String → String → String → M D Bool
  check_database t database schema object_type = do
    exists ← db_exists (txn t) database
    if exists then check_schema database schema object_type else pure false

  unfoldable pub check_role_db_schema_exists :
      (role database schema object_type : String) → M D Bool
  unfolding check_database check_schema
  check_role_db_schema_exists role database schema object_type = with_txn "" λ t.
      if role == public_role then check_database t database schema object_type else (do
        exists ← role_exists (txn t) role
        if exists then check_database t database schema object_type else pure false)

-- The checks of the parameters before anything is sent.
unfoldable pub check_parameters : GrantData → Option Error
check_parameters d =
    if not (nonempty d.schema) && not (d.object_type == "database")
    then some (text "parameter 'schema' is mandatory for postgresql_grant resource")
    else if has_objects d.objects && (d.object_type == "database" || d.object_type == "schema")
    then some (text "cannot specify `objects` when `object_type` is `database` or `schema`")
    else validate_privileges d.object_type d.privileges

-- Revoke and grant, in the transaction.
unfoldable pub apply_privileges : ℕ → M GrantData (Unit {0})
apply_privileges t = do
  owners ← get_roles_to_grant (txn t)
  with_roles_granted (txn t) owners
      (do revoke_role_privileges (txn t); grant_role_privileges (txn t))

-- Also the update of the resource.
unfoldable pub resource_grant_create : M GrantData (Unit {0})
unfolding require_privileges
resource_grant_create = do
  require_privileges
  d ← current
  or_fail (check_parameters d)
  with_txn d.database (λ t. do
    apply_privileges t
    wrap "could not commit transaction" (commit_txn t)
    set_id (generate_grant_id d)
    with_txn d.database (λ t'. read_role_privileges (txn t')))

unfoldable pub resource_grant_read : M GrantData (Unit {0})
unfolding require_privileges
resource_grant_read = do
  require_privileges
  d ← current
  exists ← check_role_db_schema_exists d.role d.database d.schema d.object_type
  if exists
      then (do
        set_id (generate_grant_id d)
        with_txn d.database (λ t. read_role_privileges (txn t)))
      else set_id ""

-- The revoke of a delete, in the transaction.
unfoldable pub withdraw_privileges : ℕ → M GrantData (Unit {0})
withdraw_privileges t = do
  owners ← get_roles_to_grant (txn t)
  with_roles_granted (txn t) owners (revoke_role_privileges (txn t))

unfoldable pub resource_grant_delete : M GrantData (Unit {0})
unfolding require_privileges
resource_grant_delete = do
  require_privileges
  d ← current
  with_txn d.database
      (λ t. do withdraw_privileges t; wrap "could not commit transaction" (commit_txn t))
