-- ===== src/Grant/Id.antt =====
-- `generateGrantID` and `getRolesToGrant` of postgresql/resource_postgresql_grant.go.
use mathlib.Core.List as List
use terraform_provider_postg.Base.{List, String, [], if◌then◌else◌, ◌==◌, ◌∷◌}
use terraform_provider_postg.Effect.{Handle, M, current, pure, ◌>>=◌}
use terraform_provider_postg.Grant.{GrantData}
use terraform_provider_postg.Helpers.Catalog.{get_schema_owner, get_tables_owner}
use terraform_provider_postg.Helpers.Privileges.{slice_contains_str}
use terraform_provider_postg.Text.{join}

unfoldable pub generate_grant_id : GrantData → String
generate_grant_id d =
    let place = if d.object_type == "database" then [] else d.schema ∷ [] in
    join
      (List.◌++◌ (d.role ∷ d.database ∷ [])
        (List.◌++◌ place (List.◌++◌ (d.object_type ∷ []) d.objects)))
      "_"

-- `owners`, with the schema's owner if it is not there yet
abbrev pub add_owner : List String → String → List String
add_owner owners schema_owner =
    if slice_contains_str owners schema_owner then owners else List.◌++◌ owners (schema_owner ∷ [])

unfoldable pub get_roles_to_grant : Handle → M GrantData (List String)
get_roles_to_grant h = do
  d ← current
  if d.object_type == "database" then pure [] else (do
    owners ← (if d.object_type == "schema" then pure [] else get_tables_owner h d.schema)
    schema_owner ← get_schema_owner h d.schema
    pure (add_owner owners schema_owner))
