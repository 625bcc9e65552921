-- ===== src/Grant/Read.antt =====
-- Reading the privileges back: postgresql/resource_postgresql_grant.go, `readRolePrivileges`.
pub mod Sending
pub mod Compared
use Prim.Native.String.{◌++◌}
use terraform_provider_postg.Base.{
  Bool, List, String, [], if◌then◌else◌, none, not, some, ℕ, ◌&&◌, ◌==◌, ◌∷◌,
}
use terraform_provider_postg.Effect.{
  Arg, Cell, Handle, M, Rows, Scan, ask, ask_server, crash, current, fail, failed, modify, no_rows,
  num, pure, query_list, refused, row, rows, str, unread, value, wrapped, ◌>>=◌,
}
use terraform_provider_postg.Grant.{GrantData}
use terraform_provider_postg.Grant.Query.{has_objects}
use terraform_provider_postg.Helpers.Catalog.{err_no_rows, get_role_oid}
use terraform_provider_postg.Helpers.Privileges.{lookup, slice_contains_str}

abbrev pub object_types : List (String × String)
object_types = ("table", "r") ∷ ("sequence", "S") ∷ ("function", "f") ∷ ("type", "T") ∷ []

-- `objectTypes[objectType]`, the empty text where the key is missing
unfoldable pub object_type_code : String → String
unfolding lookup
object_type_code object_type = elim (lookup object_type object_types) [
  | none ↦ ""
  | some code ↦ code
]

-- `rows, err = txn.Query(…)`
abbrev query_privileges : Handle → String → List Arg → M GrantData (Rows (String × List String))
query_privileges h sql args = ask_server (λ env. env.rows_acl) h sql args

set_privileges : List String → M GrantData (Unit {0})
set_privileges privileges = modify (λ d. record d { privileges = privileges })

-- `_ = d.Set("privileges", pgArrayToSet(privileges))`
store_privileges : String → Scan (List String) → M GrantData (Unit {0})
store_privileges msg no_rows = fail (wrapped msg err_no_rows)
store_privileges msg (failed e) = fail (wrapped msg e)
store_privileges msg (row privileges) = do env ← ask; set_privileges (env.new_set privileges)

unfoldable pub read_database_role_privileges : Handle → ℕ → M GrantData (Unit {0})
unfolding store_privileges set_privileges
read_database_role_privileges h role_oid = do
  d ← current
  r ←
      query_list h
        "\nSELECT array_agg(privilege_type)\nFROM (\n\tSELECT (aclexplode(datacl)).* FROM pg_database WHERE datname=$1\n) as privileges\nWHERE grantee = $2\n"
        (str d.database ∷ num role_oid ∷ [])
  store_privileges ("could not read privileges for database " ++ d.database) r

unfoldable pub read_schema_role_privileges : Handle → ℕ → M GrantData (Unit {0})
unfolding store_privileges set_privileges
read_schema_role_privileges h role_oid = do
  d ← current
  r ←
      query_list h
        "\nSELECT array_agg(privilege_type)\nFROM (\n\tSELECT (aclexplode(nspacl)).* FROM pg_namespace WHERE nspname=$1\n) as privileges\nWHERE grantee = $2\n"
        (str d.schema ∷ num role_oid ∷ [])
  store_privileges ("could not read privileges for schema " ++ d.schema) r

-- Whether the loop passes over this object.
abbrev pub skips : GrantData → String → Bool
skips d object = has_objects d.objects && not (slice_contains_str d.objects object)

-- The loop over `rows.Next`: the first object whose privileges are not those of the state gives
-- the state its privileges, and ends the loop.
unfoldable pub compare_objects :
    GrantData → List (Cell (String × List String)) → M GrantData (Unit {0})
unfolding set_privileges
compare_objects d [] = pure tt
compare_objects d (unread e ∷ cells) = fail e
compare_objects d (value (object, privileges) ∷ cells) =
    let rest = compare_objects d cells in
    ask >>= λ env.
    if skips d object
    then rest
    else if env.set_equal (env.new_set privileges) d.privileges
    then rest
    else set_privileges (env.new_set privileges)

-- `rows.Close()` is deferred above the test of `err`, as in `getTablesOwner`.
compare_rows : GrantData → Rows (String × List String) → M GrantData (Unit {0})
compare_rows d (refused e) = crash
compare_rows d (rows cells) = compare_objects d cells

unfoldable pub read_role_privileges : Handle → M GrantData (Unit {0})
unfolding compare_rows
read_role_privileges h = do
  d ← current
  role_oid ← get_role_oid h d.role
  if d.object_type == "database"
      then read_database_role_privileges h role_oid
      else if d.object_type == "schema"
      then read_schema_role_privileges h role_oid
      else if d.object_type == "function"
      then (do
        r ←
            query_privileges h
              "\nSELECT pg_proc.proname, array_remove(array_agg(privilege_type), NULL)\nFROM pg_proc\nJOIN pg_namespace ON pg_namespace.oid = pg_proc.pronamespace\nLEFT JOIN (\n    select acls.*\n    from (\n             SELECT proname, pronamespace, (aclexplode(proacl)).* FROM pg_proc\n         ) acls\n    WHERE grantee = $1\n) privs\nUSING (proname, pronamespace)\n      WHERE nspname = $2\nGROUP BY pg_proc.proname\n"
              (num role_oid ∷ str d.schema ∷ [])
        compare_rows d r)
      else (do
        r ←
            query_privileges h
              "\nSELECT pg_class.relname, array_remove(array_agg(privilege_type), NULL)\nFROM pg_class\nJOIN pg_namespace ON pg_namespace.oid = pg_class.relnamespace\nLEFT JOIN (\n    SELECT acls.* FROM (\n        SELECT relname, relnamespace, relkind, (aclexplode(relacl)).* FROM pg_class c\n    ) as acls\n    WHERE grantee=$1\n) privs\nUSING (relname, relnamespace, relkind)\nWHERE nspname = $2 AND relkind = $3\nGROUP BY pg_class.relname\n"
              (num role_oid ∷ str d.schema ∷ str (object_type_code d.object_type) ∷ [])
        compare_rows d r)
