-- ===== src/Extension.antt =====
-- postgresql/resource_postgresql_extension.go: the resource `postgresql_extension`.
pub mod Ending
pub mod Import
use Prim.Native.String.{◌++◌}
use terraform_provider_postg.Base.{
  Bool, List, String, [], false, if◌then◌else◌, not, true, ℕ, ◌==◌, ◌∷◌,
}
use terraform_provider_postg.Effect.{
  Env, M, Result, Scan, ask, crash, current, err, exec_sql, fail, failed, feature_extension, modify,
  no_rows, ok, panic, pool, pure, query_string, query_two, row, str, text, txn, wrap, wrapped,
  ◌>>=◌, ◌>>◌,
}
use terraform_provider_postg.Helpers.Catalog.{db_exists, get_database}
use terraform_provider_postg.Helpers.Transactions.{commit_txn, with_txn}
use terraform_provider_postg.Text.{join, nonempty, split_char}

pub record ExtensionData : Type 0 where
  pub id : String
  pub name : String
  pub schema : String
  pub old_schema : String
  pub version : String
  pub old_version : String
  pub database : String
  pub drop_cascade : Bool

set_id : String → M ExtensionData (Unit {0})
set_id id = modify (λ d. record d { id = id })

require_extension : M ExtensionData (Unit {0})
require_extension = do
  env ← ask
  if env.supported feature_extension
      then pure tt
      else fail (
          text (
            "postgresql_extension resource is not supported for this Postgres version ("
            ++ (env.version ++ ")")))

unfoldable pub generate_extension_id : ExtensionData → String → String
generate_extension_id d database_name = join (database_name ∷ d.name ∷ []) "."

abbrev first_part : List String → String
first_part [] = ""
first_part (p ∷ ps) = p

unfoldable pub get_extension_name_from_id : String → String
get_extension_name_from_id id = first_part (split_char b'.' id)

two_parts : String → List String → Result (String × String)
two_parts id (database ∷ name ∷ []) = ok (database, name)
two_parts id parsed = err (
    text (
      "extension ID "
      ++ (id
          ++ (" has not the expected format 'database.extension': [" ++ (join parsed " " ++ "]")))))

unfoldable pub get_db_ext_name : ExtensionData → String → Result (String × String)
unfolding two_parts
get_db_ext_name d database_name =
    if nonempty d.name
    then ok (get_database d.database database_name, d.name)
    else two_parts d.id (split_char b'.' d.id)

unfoldable pub create_extension_query : Env → ExtensionData → String
create_extension_query env d =
    "CREATE EXTENSION IF NOT EXISTS "
    ++ (env.quote_identifier d.name
        ++ ((if nonempty d.schema then " SCHEMA " ++ env.quote_identifier d.schema else "")
            ++ (if nonempty d.version then " VERSION " ++ env.quote_identifier d.version else "")))

store_extension : String → String → Scan (String × String) → M ExtensionData (Unit {0})
unfolding set_id
store_extension database ext_name no_rows = set_id ""
store_extension database ext_name (failed e) = fail (wrapped "Error reading extension" e)
store_extension database ext_name (row (schema, version)) = do
  modify
      (λ d. record d { name = ext_name; schema = schema; version = version; database = database })
  d ← current
  set_id (generate_extension_id d database)

of_result : Result (String × String) → M ExtensionData (String × String)
of_result (ok names) = pure names
of_result (err e) = fail e
of_result panic = crash

unfoldable pub resource_extension_read_impl : M ExtensionData (Unit {0})
unfolding store_extension of_result
resource_extension_read_impl = do
  env ← ask
  d ← current
  names ← of_result (get_db_ext_name d env.client_database)
  with_txn names.0 (λ t. do
    r ←
        query_two (txn t)
          "SELECT n.nspname, e.extversion FROM pg_catalog.pg_extension e, pg_catalog.pg_namespace n WHERE n.oid = e.extnamespace AND e.extname = $1"
          (str names.1 ∷ [])
    store_extension names.0 names.1 r)

unfoldable pub resource_extension_read : M ExtensionData (Unit {0})
unfolding require_extension
resource_extension_read = do require_extension; resource_extension_read_impl

unfoldable pub resource_extension_create : M ExtensionData (Unit {0})
unfolding require_extension set_id
resource_extension_create = do
  require_extension
  env ← ask
  d ← current
  let database = get_database d.database env.client_database
  with_txn database (λ t. do
    exec_sql (txn t) (create_extension_query env d)
    wrap "Error creating extension" (commit_txn t)
    set_id (generate_extension_id d database)
    resource_extension_read_impl)

-- An error other than ErrNoRows is returned as it is.
extension_found : Scan String → M ExtensionData Bool
extension_found no_rows = pure false
extension_found (failed e) = fail e
extension_found (row _) = pure true

unfoldable pub resource_extension_exists : M ExtensionData Bool
unfolding require_extension of_result extension_found
resource_extension_exists = do
  require_extension
  env ← ask
  d ← current
  names ← of_result (get_db_ext_name d env.client_database)
  exists ← db_exists pool names.0
  if not exists
      then pure false
      else with_txn names.0 (λ t. do
        r ←
            query_string (txn t) "SELECT extname FROM pg_catalog.pg_extension WHERE extname = $1"
              (str names.1 ∷ [])
        extension_found r)

unfoldable pub drop_extension_query : Env → ExtensionData → String
drop_extension_query env d =
    "DROP EXTENSION "
    ++ (env.quote_identifier d.name
        ++ (" " ++ ((if d.drop_cascade then "CASCADE" else "RESTRICT") ++ " ")))

unfoldable pub resource_extension_delete : M ExtensionData (Unit {0})
unfolding require_extension set_id
resource_extension_delete = do
  require_extension
  env ← ask
  d ← current
  with_txn (get_database d.database env.client_database) (λ t. do
    exec_sql (txn t) (drop_extension_query env d)
    wrap "Error deleting extension" (commit_txn t)
    set_id "")

unfoldable pub set_ext_schema : ℕ → M ExtensionData (Unit {0})
set_ext_schema t = do
  env ← ask
  d ← current
  if d.old_schema == d.schema
      then pure tt
      else if not (nonempty d.schema)
      then fail (text "Error setting extension name to an empty string")
      else wrap "Error updating extension SCHEMA" (
          exec_sql (txn t) (
            "ALTER EXTENSION "
            ++ (env.quote_identifier d.name ++ (" SET SCHEMA " ++ env.quote_identifier d.schema))))

unfoldable pub set_ext_version : ℕ → M ExtensionData (Unit {0})
set_ext_version t = do
  env ← ask
  d ← current
  if d.old_version == d.version
      then pure tt
      else wrap "Error updating extension version" (
          exec_sql (txn t) (
            "ALTER EXTENSION "
            ++ (env.quote_identifier d.name
                ++ (" UPDATE"
                    ++ (if nonempty d.version
                        then " TO " ++ env.quote_identifier d.version
                        else "")))))

-- The statements of an update, in its transaction.
unfoldable pub apply_changes : ℕ → M ExtensionData (Unit {0})
apply_changes t = do set_ext_schema t; set_ext_version t

unfoldable pub resource_extension_update : M ExtensionData (Unit {0})
unfolding require_extension
resource_extension_update = do
  require_extension
  env ← ask
  d ← current
  with_txn (get_database d.database env.client_database) (λ t. do
    apply_changes t
    wrap "Error updating extension" (commit_txn t)
    resource_extension_read_impl)
