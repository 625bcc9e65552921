-- ===== src/Role/Members.antt =====
-- The roles, the search path and the timeouts of a role: what create and update share in
-- postgresql/resource_postgresql_role.go.
pub mod Statements
use Prim.Native.String.{◌++◌}
use terraform_provider_postg.Role.{RoleData}
use terraform_provider_postg.Base.{Bool, List, String, [], false, if◌then◌else◌, true, ℕ, ◌∷◌}
use terraform_provider_postg.Effect.{
  Env, M, Result, Rows, ask, crash, current, err, exec_sql, fail, ok, panic, pure, query_rows,
  refused, rows, str, text, txn, wrap, wrapped, ◌>>=◌, ◌>>◌,
}
use terraform_provider_postg.Effect.Reading.{collect}
use terraform_provider_postg.Role.Config.{split_comma}
use terraform_provider_postg.Text.{join}
use terraform_provider_postg.Text.Decimal.{format_int, int_eq, pos, ℤ}

-- The roles that the role is a member of, as the server has them.
unfoldable pub granted_roles : String → Rows String → M RoleData (List String)
granted_roles role (refused e) = fail (wrapped ("could not get roles list for role " ++ role) e)
granted_roles role (rows cells) = collect ("could not scan role name for role " ++ role) cells

unfoldable pub revoke_each : ℕ → String → List String → M RoleData (Unit {0})
revoke_each t role [] = pure tt
revoke_each t role (granted ∷ rest) = do
  env ← ask
  wrap ("could not revoke role " ++ (granted ++ (" from " ++ role))) (
      exec_sql (txn t)
        ("REVOKE " ++ (env.quote_identifier granted ++ (" FROM " ++ env.quote_identifier role))))
  revoke_each t role rest

unfoldable pub revoke_roles : ℕ → M RoleData (Unit {0})
unfolding granted_roles revoke_each
revoke_roles t = do
  d ← current
  r ←
      query_rows (txn t)
        "SELECT pg_get_userbyid(roleid)\n\t\tFROM pg_catalog.pg_auth_members members\n\t\tJOIN pg_catalog.pg_roles ON members.member = pg_roles.oid\n\t\tWHERE rolname = $1"
        (str d.attrs.name ∷ [])
  granted ← granted_roles d.attrs.name r
  revoke_each t d.attrs.name granted

unfoldable pub grant_each : ℕ → String → List String → M RoleData (Unit {0})
grant_each t role [] = pure tt
grant_each t role (granting ∷ rest) = do
  env ← ask
  wrap ("could not grant role " ++ (granting ++ (" to " ++ role))) (
      exec_sql (txn t)
        ("GRANT " ++ (env.quote_identifier granting ++ (" TO " ++ env.quote_identifier role))))
  grant_each t role rest

unfoldable pub grant_roles : ℕ → M RoleData (Unit {0})
unfolding grant_each
grant_roles t = do d ← current; grant_each t d.attrs.name d.attrs.roles

-- strings.Contains(s, ", ")
unfoldable pub contains_comma : String → Bool
contains_comma s = elim (split_comma s) [ [] ↦ false | p ∷ ps ↦ elim ps [ [] ↦ false | _ ↦ true ] ]

-- The quoted parts, or the first part that holds a separator.
unfoldable pub quote_parts : Env → List String → Result (List String)
unfolding contains_comma
quote_parts env [] = ok []
quote_parts env (part ∷ parts) =
    if contains_comma part
    then err (text ("search_path cannot contain `, `: " ++ part))
    else elim (quote_parts env parts) [
      | ok quoted ↦ ok (env.quote_identifier part ∷ quoted)
      | err e ↦ err e
      | panic ↦ panic
    ]

abbrev or_default : List String → List String
or_default [] = "DEFAULT" ∷ []
or_default (p ∷ ps) = p ∷ ps

unfoldable pub set_search_path : ℕ → String → Result (List String) → M RoleData (Unit {0})
set_search_path t role panic = crash
set_search_path t role (err e) = fail e
set_search_path t role (ok quoted) = do
  env ← ask
  let search_path = join (or_default quoted) ", "
  wrap ("could not set search_path " ++ (search_path ++ (" for " ++ role))) (
      exec_sql (txn t)
        ("ALTER ROLE " ++ (env.quote_identifier role ++ (" SET search_path TO " ++ search_path))))

unfoldable pub alter_search_path : ℕ → M RoleData (Unit {0})
unfolding quote_parts set_search_path
alter_search_path t = do
  env ← ask
  d ← current
  set_search_path t d.attrs.name (quote_parts env d.attrs.search_path)

-- SET a timeout that is not 0, RESET one that is.
set_timeout : ℕ → String → ℤ → M RoleData (Unit {0})
set_timeout t key timeout = do
  env ← ask
  d ← current
  if int_eq timeout (pos 0)
      then wrap ("could not reset " ++ (key ++ (" for " ++ d.attrs.name))) (
          exec_sql (txn t)
            ("ALTER ROLE " ++ (env.quote_identifier d.attrs.name ++ (" RESET " ++ key))))
      else wrap
          ("could not set " ++ (key ++ (" " ++ (format_int timeout ++ (" for " ++ d.attrs.name)))))
          (exec_sql (txn t) (
            "ALTER ROLE "
            ++ (env.quote_identifier d.attrs.name
                ++ (" SET " ++ (key ++ (" TO " ++ format_int timeout))))))

unfoldable pub set_statement_timeout : ℕ → M RoleData (Unit {0})
unfolding set_timeout
set_statement_timeout t = do
  d ← current
  if int_eq d.old.statement_timeout d.attrs.statement_timeout
      then pure tt
      else set_timeout t "statement_timeout" d.attrs.statement_timeout

unfoldable pub set_idle_in_transaction_session_timeout : ℕ → M RoleData (Unit {0})
unfolding set_timeout
set_idle_in_transaction_session_timeout t = do
  d ← current
  if int_eq d.old.idle_in_transaction_session_timeout d.attrs.idle_in_transaction_session_timeout
      then pure tt
      else set_timeout t "idle_in_transaction_session_timeout"
          d.attrs.idle_in_transaction_session_timeout
