-- ===== src/Schema/Handlers.antt =====
-- Create, read, update, delete and exists of `postgresql_schema`.
pub mod Ending
use Prim.Native.String.{◌++◌}
use mathlib.Core.List as List
use terraform_provider_postg.Schema.{Policy, SchemaData}
use terraform_provider_postg.Base.{
  Bool, List, String, [], false, if◌then◌else◌, none, not, some, ℕ, ◌&&◌, ◌==◌, ◌∷◌,
}
use terraform_provider_postg.Effect.{
  history, Cell, AclSchema, Env, M, Result, Scan, ask, ask_server, crash, current, err, exec_sql,
  fail, failed, feature_schema_create_if_not_exist, modify, no_rows, ok, panic, pool, pure,
  query_bool, query_string, row, str, txn, unread, value, wrap, wrapped, ◌>>=◌, ◌>>◌,
}
use terraform_provider_postg.Effect.Reading.{found_or}
use terraform_provider_postg.Helpers.Catalog.{
  db_exists, get_database, get_database_owner, schema_exists,
}
use terraform_provider_postg.Helpers.Membership.{with_roles_granted}
use terraform_provider_postg.Helpers.Transactions.{commit_txn, with_txn}
use terraform_provider_postg.Map.{Map, get, put, range}
use terraform_provider_postg.Schema.Changes.{
  exec_all, set_id, set_schema_name, set_schema_owner, set_schema_policy,
}
use terraform_provider_postg.Schema.Id.{generate_schema_id, get_db_schema_name}
use terraform_provider_postg.Schema.Policies.{schema_policy_to_acl}
use terraform_provider_postg.Text.{nonempty, to_lower}

-- The loop that merges the policies of one role.
merge_policies : Env → List Policy → Map AclSchema → Map AclSchema
merge_policies env [] m = m
merge_policies env (p ∷ ps) m =
    let policy = schema_policy_to_acl env p in
    let key = to_lower policy.role in
    merge_policies env ps (elim (get key m) [
      | none ↦ put key policy m
      | some existing ↦ put key (env.acl_merge existing policy) m
    ])

policy_grants : Env → String → List AclSchema → List String
policy_grants env schema_name [] = []
policy_grants env schema_name (a ∷ as') =
    List.◌++◌ (env.acl_grants a schema_name) (policy_grants env schema_name as')

create_statement : Env → SchemaData → String
create_statement env d =
    "CREATE SCHEMA "
    ++ ((if env.supported feature_schema_create_if_not_exist && d.if_not_exists
          then "IF NOT EXISTS "
          else "")
        ++ (env.quote_identifier d.name
            ++ (if nonempty d.owner
                then " AUTHORIZATION " ++ env.quote_identifier d.owner
                else "")))

-- The `CREATE SCHEMA` of a new schema; an existing one only gets its owner.
create_queries : ℕ → Scan Bool → M SchemaData (List String)
unfolding create_statement
create_queries t no_rows = do env ← ask; d ← current; pure (create_statement env d ∷ [])
create_queries t (failed e) = fail (wrapped "Error looking for schema" e)
create_queries t (row _) = do set_schema_owner t; pure []

unfoldable pub create_schema : ℕ → M SchemaData (Unit {0})
unfolding create_queries merge_policies policy_grants
create_schema t = do
  env ← ask
  d ← current
  r ←
      query_bool (txn t) "SELECT TRUE FROM pg_catalog.pg_namespace WHERE nspname = $1"
        (str d.name ∷ [])
  queries ← create_queries t r
  log ← history
  let grants = policy_grants env d.name (range env log (merge_policies env d.policy []))
  exec_all t ("Error creating schema " ++ d.name) (List.◌++◌ queries grants)

check_schema_acl : Cell AclSchema → M SchemaData (Unit {0})
check_schema_acl (unread e) = fail (wrapped "invalid perms for schema" e)
check_schema_acl (value _) = pure tt

check_acl : Env → Cell AclSchema → M SchemaData (Unit {0})
check_acl env (unread e) = fail (wrapped "Error parsing aclitem" e)
check_acl env (value item) = check_schema_acl (env.acl_new_schema item)

-- Parsing the ACLs of a schema that was read: the result is only checked.
check_acls : Env → List String → M SchemaData (Unit {0})
unfolding check_acl check_schema_acl
check_acls env [] = pure tt
check_acls env (acl ∷ acls) = do check_acl env (env.acl_parse acl); check_acls env acls

store_schema : String → String → Scan (String × List String) → M SchemaData (Unit {0})
unfolding check_acls
store_schema database schema_name no_rows = set_id ""
store_schema database schema_name (failed e) = fail (wrapped "Error reading schema" e)
store_schema database schema_name (row (owner, acls)) = do
  env ← ask
  check_acls env acls
  modify (λ d. record d { name = schema_name; owner = owner; database = database })
  d ← current
  set_id (generate_schema_id d database)

unfoldable pub of_result : Result (String × String) → M SchemaData (String × String)
of_result (ok names) = pure names
of_result (err e) = fail e
of_result panic = crash

unfoldable pub resource_schema_read : M SchemaData (Unit {0})
unfolding store_schema of_result
resource_schema_read = do
  env ← ask
  d ← current
  names ← of_result (get_db_schema_name d env.client_database)
  with_txn names.0 (λ t. do
    r ←
        ask_server (λ e. e.scan_owner_acl) (txn t)
          "SELECT pg_catalog.pg_get_userbyid(n.nspowner), COALESCE(n.nspacl, '{}'::aclitem[])::TEXT[] FROM pg_catalog.pg_namespace n WHERE n.nspname=$1"
          (str names.1 ∷ [])
    store_schema names.0 names.1 r)

-- The owner of the database, and the owner of the schema if it is another role.
abbrev roles_for_create : String → String → List String
roles_for_create db_owner schema_owner =
    if nonempty schema_owner && not (schema_owner == db_owner)
    then db_owner ∷ schema_owner ∷ []
    else db_owner ∷ []

unfoldable pub resource_schema_create : M SchemaData (Unit {0})
resource_schema_create = do
  env ← ask
  d ← current
  let database = get_database d.database env.client_database
  with_txn database (λ t. do
    db_owner ← get_database_owner (txn t) database
    with_roles_granted (txn t) (roles_for_create db_owner d.owner) (create_schema t)
    wrap "Error committing schema" (commit_txn t)
    set_id (generate_schema_id d database)
    resource_schema_read)

drop_statement : Env → SchemaData → String
drop_statement env d =
    "DROP SCHEMA "
    ++ (env.quote_identifier d.name ++ (" " ++ (if d.drop_cascade then "CASCADE" else "RESTRICT")))

-- The body of a delete, for a schema that exists.
drop_schema : ℕ → M SchemaData (Unit {0})
unfolding drop_statement
drop_schema t = do
  env ← ask
  d ← current
  with_roles_granted (txn t) (d.owner ∷ [])
      (wrap "Error deleting schema" (exec_sql (txn t) (drop_statement env d)))

unfoldable pub resource_schema_delete : M SchemaData (Unit {0})
unfolding drop_schema
resource_schema_delete = do
  env ← ask
  d ← current
  with_txn (get_database d.database env.client_database) (λ t. do
    exists ← schema_exists (txn t) d.name
    if not exists
        then set_id ""
        else (do drop_schema t; wrap "Error committing schema" (commit_txn t); set_id ""))

unfoldable pub resource_schema_exists : M SchemaData Bool
unfolding of_result
resource_schema_exists = do
  env ← ask
  d ← current
  names ← of_result (get_db_schema_name d env.client_database)
  exists ← db_exists pool names.0
  if not exists
      then pure false
      else with_txn names.0 (λ t. do
        r ←
            query_string (txn t)
              "SELECT n.nspname FROM pg_catalog.pg_namespace n WHERE n.nspname=$1"
              (str names.1 ∷ [])
        found_or "Error reading schema" r)

-- The statements of an update, in its transaction.
unfoldable pub apply_changes : ℕ → String → M SchemaData (Unit {0})
apply_changes t database_name = do
  set_schema_name t database_name
  set_schema_owner t
  set_schema_policy t

unfoldable pub resource_schema_update : M SchemaData (Unit {0})
resource_schema_update = do
  env ← ask
  d ← current
  let database = get_database d.database env.client_database
  with_txn database (λ t. do
    apply_changes t database
    wrap "Error committing schema" (commit_txn t)
    resource_schema_read)
