-- ===== src/Schema/Id/Import.antt =====
-- The ids of `postgresql_schema` as an import reads them back.
use Prim.Native.String.{◌++◌}
use terraform_provider_postg.Schema.Id.{generate_schema_id, get_db_schema_name, two_parts, id_error}
use terraform_provider_postg.Schema.{SchemaData}
use terraform_provider_postg.Base.{List, String, [], ◌↔◌, ◌∷◌, ◌≡◌}
use terraform_provider_postg.Effect.{ok}
use terraform_provider_postg.Helpers.Catalog.{get_database}
use terraform_provider_postg.Text.{join, split_char}
use terraform_provider_postg.Text.Split.{count_char, split-two}

two_parts_iff :
    (id : String) (parts : List String) (a b : String)
    → (two_parts id parts ≡ ok (a, b)) ↔ (parts ≡ a ∷ b ∷ [])
unfolding two_parts id_error
two_parts_iff id [] a b = ((λ e. cc), λ e. cc)
two_parts_iff id (p ∷ []) a b = ((λ e. cc), λ e. cc)
two_parts_iff id (p ∷ q ∷ []) a b = ((λ e. cc), λ e. cc)
two_parts_iff id (p ∷ q ∷ r ∷ ps) a b = ((λ e. cc), λ e. cc)

-- The id of any schema, imported into a resource without a name, gives its database and its name
-- exactly if neither holds a dot.
pub get_db_schema_name-generate_schema_id :
    (d : SchemaData) (database_name connected : String)
    → (get_db_schema_name
          (record d { name = ""; id = generate_schema_id d database_name })
          connected
        ≡ ok (get_database d.database database_name, d.name))
      ↔ ((count_char b'.' (get_database d.database database_name) ≡ 0)
          × (count_char b'.' d.name ≡ 0))
unfolding get_db_schema_name generate_schema_id join
get_db_schema_name-generate_schema_id d database_name connected =
    let id = get_database d.database database_name ++ ("." ++ d.name) in
    let parts =
      two_parts_iff id (split_char b'.' id) (get_database d.database database_name) d.name in
    let split = split-two (get_database d.database database_name) d.name in
    ((λ e. split.0 (parts.0 e)), λ h. parts.1 (split.1 h))
