-- ===== src/Role/Read.antt =====
-- `resourcePostgreSQLRoleReadImpl` and `readRolePassword` of
-- postgresql/resource_postgresql_role.go.
pub mod Sending
use Prim.Native.String.{◌++◌}
use mathlib.Core.List as List
use terraform_provider_postg.Role.{RoleAttrs, RoleData}
use terraform_provider_postg.Base.{
  Bool, List, Option, String, [], false, if◌then◌else◌, none, not, some, true, ◌&&◌, ◌==◌, ◌||◌,
  ◌∷◌,
}
use terraform_provider_postg.Effect.{
  Env, Error, M, RoleRow, Scan, ask, ask_server, current, fail, failed, feature_replication,
  feature_rls, modify, no_rows, pool, pure, query_bool, query_string, row, str, text, wrapped,
  ◌>>=◌, ◌>>◌,
}
use terraform_provider_postg.Effect.Reading.{row_or}
use terraform_provider_postg.Helpers.Catalog.{err_no_rows}
use terraform_provider_postg.Role.Config.{
  has_prefix, read_idle_in_transaction_session_timeout, read_search_path, read_statement_timeout,
}
use terraform_provider_postg.Text.{join, nonempty}

role_columns : Env → List String
role_columns env =
    List.◌++◌
      ("rolname" ∷ "rolsuper" ∷ "rolinherit" ∷ "rolcreaterole" ∷ "rolcreatedb" ∷ "rolcanlogin"
        ∷ "rolconnlimit" ∷ "COALESCE(rolvaliduntil::TEXT, 'infinity')" ∷ "rolconfig" ∷ [])
      (List.◌++◌ (if env.supported feature_replication then "rolreplication" ∷ [] else [])
        (if env.supported feature_rls then "rolbypassrls" ∷ [] else []))

unfoldable pub role_query : Env → String
unfolding role_columns
role_query env =
    "SELECT ARRAY(\n\t\t\tSELECT pg_get_userbyid(roleid) FROM pg_catalog.pg_auth_members members WHERE member = pg_roles.oid\n\t\t), "
    ++ (join (role_columns env) ", " ++ "\n\t\tFROM pg_catalog.pg_roles WHERE rolname=$1")

unfoldable pub set_id : String → M RoleData (Unit {0})
set_id id = modify (λ d. record d { id = id })

unfoldable pub modify_attrs : (RoleAttrs → RoleAttrs) → M RoleData (Unit {0})
modify_attrs f = modify (λ d. record d { attrs = f d.attrs })

-- Both are hashes already.
is_hashed : String → Bool
is_hashed password = has_prefix password "md5" || has_prefix password "SCRAM-SHA-256"

-- The password to keep, from the one of the state and the one that the server stores.
unfoldable pub merge_password : Env → String → String → String → String
unfolding is_hashed
merge_password env id state_password role_password =
    if nonempty state_password && not (is_hashed state_password)
    then (if has_prefix role_password "md5"
          && ("md5" ++ env.md5_hex (state_password ++ id)) == role_password
        then state_password
        else if has_prefix role_password "SCRAM-SHA-256"
        then state_password
        else role_password)
    else role_password

not_superuser : Env → Error
not_superuser env = text (
    "could not read role password from Postgres as connected user "
    ++ (env.database_username
        ++ " is not a SUPERUSER. You can set `superuser = false` in the provider configuration so it will not try to read the password from Postgres"))

stored_password : Scan String → M RoleData String
stored_password no_rows = pure ""
stored_password (failed e) = fail (wrapped "Error reading role" e)
stored_password (row role_password) = do
  env ← ask
  d ← current
  pure (merge_password env d.id d.attrs.password role_password)

-- `db.isSuperuser()`
connected_superuser : M RoleData Bool
connected_superuser = do
  r ← query_bool pool "SELECT rolsuper FROM pg_roles WHERE rolname = CURRENT_USER" []
  row_or (wrapped "could not check if current user is superuser" err_no_rows)
      "could not check if current user is superuser" r

unfoldable pub read_role_password : Bool → M RoleData String
unfolding not_superuser stored_password connected_superuser
read_role_password can_login = do
  env ← ask
  d ← current
  if not can_login || not env.config_superuser then pure d.attrs.password else (do
    superuser ← connected_superuser
    if not superuser then fail (not_superuser env) else (do
      r ←
          query_string pool
            "SELECT COALESCE(passwd, '') FROM pg_catalog.pg_shadow AS s WHERE s.usename = $1"
            (str d.id ∷ [])
      stored_password r))

abbrev or_false : Option Bool → Bool
or_false none = false
or_false (some b) = b

-- The attributes that are set before the configuration of the role is read.
unfoldable pub with_row : Env → RoleRow → RoleAttrs → RoleAttrs
with_row env r a = record a {
  name = r.name;
  connection_limit = r.conn_limit;
  create_database = r.create_db;
  create_role = r.create_role;
  encrypted_password = true;
  inherit = r.inherit;
  login = r.can_login;
  superuser = r.superuser;
  valid_until = r.valid_until;
  replication = or_false r.replication;
  bypass_row_level_security = or_false r.bypass_rls;
  roles = env.new_set r.roles;
  search_path = read_search_path r.config;
}

store_role : Scan RoleRow → M RoleData (Unit {0})
unfolding with_row set_id modify_attrs
store_role no_rows = set_id ""
store_role (failed e) = fail (wrapped "Error reading ROLE" e)
store_role (row r) = do
  env ← ask
  modify_attrs (with_row env r)
  statement_timeout ← read_statement_timeout r.config
  modify_attrs (λ a. record a { statement_timeout = statement_timeout })
  idle_timeout ← read_idle_in_transaction_session_timeout r.config
  modify_attrs (λ a. record a { idle_in_transaction_session_timeout = idle_timeout })
  set_id r.name
  password ← read_role_password r.can_login
  modify_attrs (λ a. record a { password = password })

unfoldable pub resource_role_read_impl : M RoleData (Unit {0})
unfolding store_role
resource_role_read_impl = do
  env ← ask
  d ← current
  r ← ask_server (λ e. e.scan_role) pool (role_query env) (str d.id ∷ [])
  store_role r
