-- ===== src/Schema/Id.antt =====
-- `generateSchemaID` and `getDBSchemaName` of postgresql/resource_postgresql_schema.go, and how the
-- resources of one database read an imported id.
pub mod Import
use Prim.Native.String.{◌++◌}
use terraform_provider_postg.Schema.{SchemaData}
use terraform_provider_postg.Base.{List, String, [], if◌then◌else◌, ◌∷◌}
use terraform_provider_postg.Effect.{Error, Result, err, ok, text}
use terraform_provider_postg.Helpers.Catalog.{get_database}
use terraform_provider_postg.Text.{join, nonempty, split_char}

unfoldable pub generate_schema_id : SchemaData → String → String
generate_schema_id d database_name = join (get_database d.database database_name ∷ d.name ∷ []) "."

id_error : String → List String → Error
id_error id parsed = text (
    "schema ID "
    ++ (id ++ (" has not the expected format 'database.schema': [" ++ (join parsed " " ++ "]"))))

-- The two parts of an imported id.
two_parts : String → List String → Result (String × String)
unfolding id_error
two_parts id (database ∷ name ∷ []) = ok (database, name)
two_parts id parsed = err (id_error id parsed)

unfoldable pub get_db_schema_name : SchemaData → String → Result (String × String)
unfolding two_parts
get_db_schema_name d database_name =
    if nonempty d.name
    then ok (get_database d.database database_name, d.name)
    else two_parts d.id (split_char b'.' d.id)
