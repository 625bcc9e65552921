-- ===== src/DefaultPrivileges.antt =====
-- postgresql/resource_postgresql_default_privileges.go: the resource
-- `postgresql_default_privileges`.
pub mod Ending
use Prim.Native.String.{◌++◌}
use terraform_provider_postg.Base.{
  Bool, List, Option, String, [], if◌then◌else◌, some, ℕ, ◌&&◌, ◌==◌, ◌∷◌,
}
use terraform_provider_postg.Effect.{
  Env, Error, Handle, M, Scan, ask, current, exec_sql, fail, failed, modify, no_rows, num, or_fail,
  query_list, row, str, text, txn, wrap, wrapped, ◌>>=◌, ◌>>◌,
}
use terraform_provider_postg.Grant.Handlers.{check_role_db_schema_exists}
use terraform_provider_postg.Grant.Read.{object_type_code}
use terraform_provider_postg.Helpers.Catalog.{err_no_rows, get_role_oid, pg_lock_role}
use terraform_provider_postg.Helpers.Membership.{with_roles_granted}
use terraform_provider_postg.Helpers.Privileges.{validate_privileges}
use terraform_provider_postg.Helpers.Transactions.{commit_txn, with_txn}
use terraform_provider_postg.Text.{join, nonempty, to_lower, to_upper}

pub record DefaultPrivilegesData : Type 0 where
  pub id : String
  pub role : String
  pub database : String
  pub owner : String
  pub schema : String
  pub object_type : String
  pub privileges : List String
  pub with_grant_option : Bool

unfoldable pub generate_default_privileges_id : DefaultPrivilegesData → String
generate_default_privileges_id d =
    let pg_schema = if nonempty d.schema then d.schema else "noschema" in
    join (d.role ∷ d.database ∷ pg_schema ∷ d.owner ∷ d.object_type ∷ []) "_"

set_id : String → M DefaultPrivilegesData (Unit {0})
set_id id = modify (λ d. record d { id = id })

in_schema : Env → DefaultPrivilegesData → String
in_schema env d = if nonempty d.schema then "IN SCHEMA " ++ env.quote_identifier d.schema else ""

unfoldable pub grant_default_query : Env → DefaultPrivilegesData → String
unfolding in_schema
grant_default_query env d =
    let query =
      "ALTER DEFAULT PRIVILEGES FOR ROLE "
      ++ (env.quote_identifier d.owner
          ++ (" "
              ++ (in_schema env d
                  ++ (" GRANT "
                      ++ (join d.privileges ","
                          ++ (" ON "
                              ++ (to_upper d.object_type
                                  ++ ("S TO " ++ env.quote_identifier d.role)))))))) in
    if d.with_grant_option then query ++ " WITH GRANT OPTION" else query

unfoldable pub revoke_default_query : Env → DefaultPrivilegesData → String
unfolding in_schema
revoke_default_query env d =
    "ALTER DEFAULT PRIVILEGES FOR ROLE "
    ++ (env.quote_identifier d.owner
        ++ (" "
            ++ (in_schema env d
                ++ (" REVOKE ALL ON "
                    ++ (to_upper d.object_type ++ ("S FROM " ++ env.quote_identifier d.role))))))

unfoldable pub grant_role_default_privileges : Handle → M DefaultPrivilegesData (Unit {0})
grant_role_default_privileges h = do
  env ← ask
  d ← current
  wrap "could not alter default privileges" (exec_sql h (grant_default_query env d))

unfoldable pub revoke_role_default_privileges : Handle → M DefaultPrivilegesData (Unit {0})
revoke_role_default_privileges h = do
  env ← ask
  d ← current
  wrap "could not revoke default privileges" (exec_sql h (revoke_default_query env d))

-- No privileges at all count as "does not exist".
store_default_privileges : Scan (List String) → M DefaultPrivilegesData (Unit {0})
unfolding set_id
store_default_privileges no_rows = fail (wrapped "could not read default privileges" err_no_rows)
store_default_privileges (failed e) = fail (wrapped "could not read default privileges" e)
store_default_privileges (row []) = set_id ""
store_default_privileges (row (p ∷ ps)) = do
  env ← ask
  modify (λ d. record d { privileges = env.new_set (p ∷ ps) })
  d ← current
  set_id (generate_default_privileges_id d)

query_default_privileges :
    Handle → DefaultPrivilegesData → ℕ → M DefaultPrivilegesData (Scan (List String))
query_default_privileges h d role_oid =
    if nonempty d.schema
    then query_list h
        "SELECT array_agg(prtype) FROM (\n\t\tSELECT defaclnamespace, (aclexplode(defaclacl)).* FROM pg_default_acl\n\t\tWHERE defaclobjtype = $3\n\t) AS t (namespace, grantor_oid, grantee_oid, prtype, grantable)\n\tJOIN pg_namespace ON pg_namespace.oid = namespace\n\tWHERE grantee_oid = $1 AND nspname = $2 AND pg_get_userbyid(grantor_oid) = $4;\n"
        (num role_oid ∷ str d.schema ∷ str (object_type_code d.object_type) ∷ str d.owner ∷ [])
    else query_list h
        "SELECT array_agg(prtype) FROM (\n\t\tSELECT defaclnamespace, (aclexplode(defaclacl)).* FROM pg_default_acl\n\t\tWHERE defaclobjtype = $2\n\t) AS t (namespace, grantor_oid, grantee_oid, prtype, grantable)\n\tWHERE grantee_oid = $1 AND namespace = 0 AND pg_get_userbyid(grantor_oid) = $3;\n"
        (num role_oid ∷ str (object_type_code d.object_type) ∷ str d.owner ∷ [])

unfoldable pub read_role_default_privileges : Handle → M DefaultPrivilegesData (Unit {0})
unfolding store_default_privileges query_default_privileges
read_role_default_privileges h = do
  d ← current
  pg_lock_role h d.owner
  role_oid ← get_role_oid h d.role
  r ← query_default_privileges h d role_oid
  store_default_privileges r

-- The checks of the parameters before anything is sent.
unfoldable pub check_parameters : DefaultPrivilegesData → Option Error
check_parameters d =
    if d.with_grant_option && to_lower d.role == "public"
    then some (text "with_grant_option cannot be true for role 'public'")
    else validate_privileges d.object_type d.privileges

-- Also the update of the resource.
unfoldable pub resource_default_privileges_create : M DefaultPrivilegesData (Unit {0})
unfolding set_id
resource_default_privileges_create = do
  d ← current
  or_fail (check_parameters d)
  with_txn d.database (λ t. do
    pg_lock_role (txn t) d.owner
    with_roles_granted (txn t) (d.owner ∷ [])
        (do revoke_role_default_privileges (txn t); grant_role_default_privileges (txn t))
    commit_txn t
    set_id (generate_default_privileges_id d)
    with_txn d.database (λ t'. read_role_default_privileges (txn t')))

unfoldable pub resource_default_privileges_read : M DefaultPrivilegesData (Unit {0})
unfolding set_id
resource_default_privileges_read = do
  d ← current
  exists ← check_role_db_schema_exists d.role d.database d.schema d.object_type
  if exists then with_txn d.database (λ t. read_role_default_privileges (txn t)) else set_id ""

unfoldable pub resource_default_privileges_delete : M DefaultPrivilegesData (Unit {0})
resource_default_privileges_delete = do
  d ← current
  with_txn d.database (λ t. do
    pg_lock_role (txn t) d.owner
    with_roles_granted (txn t) (d.owner ∷ []) (revoke_role_default_privileges (txn t))
    commit_txn t)
