-- ===== src/Role/Create.antt =====
-- The options of `CREATE ROLE` in postgresql/resource_postgresql_role.go.
use Prim.Native.String.{◌++◌}
use mathlib.Core.List as List
use terraform_provider_postg.Role.{RoleAttrs}
use terraform_provider_postg.Base.{Bool, List, String, [], if◌then◌else◌, not, ◌==◌, ◌∷◌}
use terraform_provider_postg.Effect.{
  Env, feature_create_role_with, feature_replication, feature_rls,
}
use terraform_provider_postg.Helpers.Quote.{pq_quote_literal}
use terraform_provider_postg.Text.{join, nonempty, to_lower, to_upper}
use terraform_provider_postg.Text.Decimal.{format_int}

quoted : String → String → String
quoted key val = key ++ (" '" ++ (pq_quote_literal val ++ "'"))

password_opts : RoleAttrs → List String
unfolding quoted
password_opts a =
    if not (nonempty a.password)
    then []
    else if to_upper a.password == "NULL"
    then "PASSWORD NULL" ∷ []
    else (if a.encrypted_password then "ENCRYPTED" else "UNENCRYPTED")
      ∷ quoted "PASSWORD" a.password
      ∷ []

valid_until_opts : RoleAttrs → List String
unfolding quoted
valid_until_opts a =
    if not (nonempty a.valid_until)
    then []
    else if to_lower a.valid_until == "infinity"
    then "VALID UNTIL 'infinity'" ∷ []
    else quoted "VALID UNTIL" a.valid_until ∷ []

-- One of the two words of a flag.
abbrev pub flag : String → String → Bool → String
flag enable disable v = if v then enable else disable

bool_opts : Env → RoleAttrs → List String
bool_opts env a =
    List.◌++◌
      (flag "SUPERUSER" "NOSUPERUSER" a.superuser
        ∷ flag "CREATEDB" "NOCREATEDB" a.create_database
        ∷ flag "CREATEROLE" "NOCREATEROLE" a.create_role
        ∷ flag "INHERIT" "NOINHERIT" a.inherit
        ∷ flag "LOGIN" "NOLOGIN" a.login
        ∷ [])
      (List.◌++◌
        (if env.supported feature_rls
          then flag "BYPASSRLS" "NOBYPASSRLS" a.bypass_row_level_security ∷ []
          else [])
        (if env.supported feature_replication
          then flag "REPLICATION" "NOREPLICATION" a.replication ∷ []
          else []))

unfoldable pub create_opts : Env → RoleAttrs → List String
unfolding password_opts valid_until_opts bool_opts
create_opts env a = List.◌++◌ (password_opts a) (
    List.◌++◌ (valid_until_opts a)
      (("CONNECTION LIMIT " ++ format_int a.connection_limit) ∷ bool_opts env a))

-- There is always an option: the connection limit.
unfoldable pub create_role_query : Env → RoleAttrs → String
unfolding create_opts
create_role_query env a =
    "CREATE ROLE "
    ++ (env.quote_identifier a.name
        ++ ((if env.supported feature_create_role_with then " WITH " else " ")
            ++ join (create_opts env a) " "))
