-- ===== src/Role/Update.antt =====
-- The statements of an update, one for each attribute that changed, in
-- postgresql/resource_postgresql_role.go.
pub mod Statements
pub mod Unchanged
use Prim.Native.String.{◌++◌}
use terraform_provider_postg.Role.{RoleData}
use terraform_provider_postg.Base.{
  bool_changed, Bool, String, false, if◌then◌else◌, not, true, ℕ, ◌&&◌, ◌==◌, ◌||◌,
}
use terraform_provider_postg.Text.Format.{format_quoted}
use terraform_provider_postg.Effect.{
  M, ask, current, exec_sql, fail, feature_rls, pure, text, txn, wrap, ◌>>=◌, ◌>>◌,
}
use terraform_provider_postg.Helpers.Quote.{pq_quote_literal}
use terraform_provider_postg.Role.Create.{flag}
use terraform_provider_postg.Role.Read.{set_id}
use terraform_provider_postg.Text.{nonempty, to_lower}
use terraform_provider_postg.Text.Decimal.{format_int, int_eq}

unfoldable pub set_role_name : ℕ → M RoleData (Unit {0})
set_role_name t = do
  env ← ask
  d ← current
  if d.old.name == d.attrs.name
      then pure tt
      else if not (nonempty d.attrs.name)
      then fail (text "Error setting role name to an empty string")
      else (do
        wrap "Error updating role NAME" (
            exec_sql (txn t) (
              "ALTER ROLE "
              ++ (env.quote_identifier d.old.name
                  ++ (" RENAME TO " ++ env.quote_identifier d.attrs.name))))
        set_id d.attrs.name)

-- A renamed role loses its password, so it is set again.
unfoldable pub set_role_password : ℕ → M RoleData (Unit {0})
set_role_password t = do
  env ← ask
  d ← current
  if d.old.password == d.attrs.password && d.old.name == d.attrs.name
      then pure tt
      else wrap "Error updating role password" (
          exec_sql (txn t) (
            "ALTER ROLE "
            ++ (env.quote_identifier d.attrs.name
                ++ (" PASSWORD '" ++ (pq_quote_literal d.attrs.password ++ "'")))))

-- ALTER ROLE … WITH a word
set_with : ℕ → String → String → M RoleData (Unit {0})
set_with t msg word = do
  env ← ask
  d ← current
  wrap ("Error updating role " ++ msg) (
      exec_sql (txn t) ("ALTER ROLE " ++ (env.quote_identifier d.attrs.name ++ (" WITH " ++ word))))

unfoldable pub set_role_bypass_rls : ℕ → M RoleData (Unit {0})
unfolding set_with
set_role_bypass_rls t = do
  env ← ask
  d ← current
  if not (bool_changed d.old.bypass_row_level_security d.attrs.bypass_row_level_security)
      then pure tt
      else if not (env.supported feature_rls)
      then fail (
          text (
            "PostgreSQL client is talking with a server ("
            ++ (format_quoted env.is_print env.version
                ++ ") that does not support PostgreSQL Row-Level Security")))
      else set_with t "BYPASSRLS" (flag "BYPASSRLS" "NOBYPASSRLS" d.attrs.bypass_row_level_security)

unfoldable pub set_role_conn_limit : ℕ → M RoleData (Unit {0})
set_role_conn_limit t = do
  env ← ask
  d ← current
  if int_eq d.old.connection_limit d.attrs.connection_limit
      then pure tt
      else wrap "Error updating role CONNECTION LIMIT" (
          exec_sql (txn t) (
            "ALTER ROLE "
            ++ (env.quote_identifier d.attrs.name
                ++ (" CONNECTION LIMIT " ++ format_int d.attrs.connection_limit))))

unfoldable pub set_role_create_db : ℕ → M RoleData (Unit {0})
unfolding set_with
set_role_create_db t = do
  d ← current
  if not (bool_changed d.old.create_database d.attrs.create_database)
      then pure tt
      else set_with t "CREATEDB" (flag "CREATEDB" "NOCREATEDB" d.attrs.create_database)

unfoldable pub set_role_create_role : ℕ → M RoleData (Unit {0})
unfolding set_with
set_role_create_role t = do
  d ← current
  if not (bool_changed d.old.create_role d.attrs.create_role)
      then pure tt
      else set_with t "CREATEROLE" (flag "CREATEROLE" "NOCREATEROLE" d.attrs.create_role)

unfoldable pub set_role_inherit : ℕ → M RoleData (Unit {0})
unfolding set_with
set_role_inherit t = do
  d ← current
  if not (bool_changed d.old.inherit d.attrs.inherit)
      then pure tt
      else set_with t "INHERIT" (flag "INHERIT" "NOINHERIT" d.attrs.inherit)

unfoldable pub set_role_login : ℕ → M RoleData (Unit {0})
unfolding set_with
set_role_login t = do
  d ← current
  if not (bool_changed d.old.login d.attrs.login)
      then pure tt
      else set_with t "LOGIN" (flag "LOGIN" "NOLOGIN" d.attrs.login)

unfoldable pub set_role_replication : ℕ → M RoleData (Unit {0})
unfolding set_with
set_role_replication t = do
  d ← current
  if not (bool_changed d.old.replication d.attrs.replication)
      then pure tt
      else set_with t "REPLICATION" (flag "REPLICATION" "NOREPLICATION" d.attrs.replication)

unfoldable pub set_role_superuser : ℕ → M RoleData (Unit {0})
unfolding set_with
set_role_superuser t = do
  d ← current
  if not (bool_changed d.old.superuser d.attrs.superuser)
      then pure tt
      else set_with t "SUPERUSER" (flag "SUPERUSER" "NOSUPERUSER" d.attrs.superuser)

unfoldable pub set_role_valid_until : ℕ → M RoleData (Unit {0})
set_role_valid_until t = do
  env ← ask
  d ← current
  if d.old.valid_until == d.attrs.valid_until || not (nonempty d.attrs.valid_until)
      then pure tt
      else (do
        let valid_until =
            if to_lower d.attrs.valid_until == "infinity" then "infinity" else d.attrs.valid_until
        wrap "Error updating role VALID UNTIL" (
            exec_sql (txn t) (
              "ALTER ROLE "
              ++ (env.quote_identifier d.attrs.name
                  ++ (" VALID UNTIL '" ++ (pq_quote_literal valid_until ++ "'"))))))

-- The statements on the role itself.
unfoldable pub alter_role : ℕ → M RoleData (Unit {0})
alter_role t = do
  set_role_name t
  set_role_password t
  set_role_bypass_rls t
  set_role_conn_limit t
  set_role_create_db t
  set_role_create_role t
  set_role_inherit t
  set_role_login t
  set_role_replication t
  set_role_superuser t
  set_role_valid_until t
