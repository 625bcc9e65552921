-- ===== src/GrantRole.antt =====
-- postgresql/resource_postgresql_grant_role.go: the resource `postgresql_grant_role`.
pub mod Ending
use Prim.Native.String.{◌++◌}
use terraform_provider_postg.Base.{Bool, String, [], if◌then◌else◌, ◌∷◌}
use terraform_provider_postg.Effect.{
  Env, Handle, M, Scan, ask, ask_server, current, exec_sql, fail, failed, modify, no_rows, pool,
  feature_privileges, pure, row, str, text, txn, wrap, wrapped, ◌>>=◌, ◌>>◌,
}
use terraform_provider_postg.Helpers.Transactions.{commit_txn, with_txn}
use terraform_provider_postg.Text.{format_bool, join}

pub record GrantRoleData : Type 0 where
  pub id : String
  pub role : String
  pub grant_role : String
  pub with_admin_option : Bool

abbrev get_grant_role_query : String
get_grant_role_query =
    "\nSELECT\n  pg_get_userbyid(member) as role,\n  pg_get_userbyid(roleid) as grant_role,\n  admin_option\nFROM\n  pg_auth_members\nWHERE\n  pg_get_userbyid(member) = $1 AND\n  pg_get_userbyid(roleid) = $2;\n"

unfoldable pub generate_grant_role_id : GrantRoleData → String
generate_grant_role_id d = join (d.role ∷ d.grant_role ∷ format_bool d.with_admin_option ∷ []) "_"

unfoldable pub create_grant_role_query : Env → GrantRoleData → String
create_grant_role_query env d =
    let query =
      "GRANT " ++ (env.quote_identifier d.grant_role ++ (" TO " ++ env.quote_identifier d.role)) in
    if d.with_admin_option then query ++ " WITH ADMIN OPTION" else query

unfoldable pub create_revoke_role_query : Env → GrantRoleData → String
create_revoke_role_query env d =
    "REVOKE " ++ (env.quote_identifier d.grant_role ++ (" FROM " ++ env.quote_identifier d.role))

unfoldable pub grant_role : Handle → M GrantRoleData (Unit {0})
grant_role h = do
  env ← ask
  d ← current
  wrap "could not execute grant query" (exec_sql h (create_grant_role_query env d))

unfoldable pub revoke_role : Handle → M GrantRoleData (Unit {0})
revoke_role h = do
  env ← ask
  d ← current
  wrap "could not execute revoke query" (exec_sql h (create_revoke_role_query env d))

set_id : String → M GrantRoleData (Unit {0})
set_id id = modify (λ d. record d { id = id })

store_grant_role : Scan (String × String × Bool) → M GrantRoleData (Unit {0})
unfolding set_id
store_grant_role no_rows = set_id ""
store_grant_role (failed e) = fail (wrapped "Error reading grant role" e)
store_grant_role (row (role_name, grant_role_name, with_admin_option)) = do
  modify (λ d. record d {
    role = role_name;
    grant_role = grant_role_name;
    with_admin_option = with_admin_option;
  })
  d ← current
  set_id (generate_grant_role_id d)

unfoldable pub read_grant_role : Handle → M GrantRoleData (Unit {0})
unfolding store_grant_role
read_grant_role h = do
  d ← current
  r ←
      ask_server (λ env. env.scan_membership) h get_grant_role_query
        (str d.role ∷ str d.grant_role ∷ [])
  store_grant_role r

require_privileges : M GrantRoleData (Unit {0})
require_privileges = do
  env ← ask
  if env.supported feature_privileges
      then pure tt
      else fail (
          text (
            "postgresql_grant_role resource is not supported for this Postgres version ("
            ++ (env.version ++ ")")))

unfoldable pub resource_grant_role_create : M GrantRoleData (Unit {0})
unfolding require_privileges set_id
resource_grant_role_create = do
  require_privileges
  with_txn "" (λ t. do
    revoke_role (txn t)
    grant_role (txn t)
    wrap "could not commit transaction" (commit_txn t)
    d ← current
    set_id (generate_grant_role_id d)
    read_grant_role pool)

unfoldable pub resource_grant_role_read : M GrantRoleData (Unit {0})
unfolding require_privileges
resource_grant_role_read = do require_privileges; read_grant_role pool

unfoldable pub resource_grant_role_delete : M GrantRoleData (Unit {0})
unfolding require_privileges
resource_grant_role_delete = do
  require_privileges
  with_txn "" (λ t. do revoke_role (txn t); wrap "could not commit transaction" (commit_txn t))
