-- ===== src/Schema/Changes.antt =====
-- The statements of an update: `setSchemaName`, `setSchemaOwner` and `setSchemaPolicy` of
-- postgresql/resource_postgresql_schema.go.
pub mod Statements
use Prim.Native.String.{◌++◌}
use mathlib.Core.List as List
use terraform_provider_postg.Schema.{Policy, SchemaData}
use terraform_provider_postg.Base.{Bool, List, String, [], if◌then◌else◌, not, ℕ, ◌==◌, ◌∷◌}
use terraform_provider_postg.Effect.{
  history, Env, M, ask, current, exec_sql, fail, modify, pure, query_bool, str, text, txn, wrap,
  ◌>>=◌, ◌>>◌,
}
use terraform_provider_postg.Effect.Reading.{found_or}
use terraform_provider_postg.Helpers.Membership.{with_roles_granted}
use terraform_provider_postg.Map.{range}
use terraform_provider_postg.Schema.Id.{generate_schema_id}
use terraform_provider_postg.Schema.Policies.{schema_changed_policies, schema_policy_to_acl}
use terraform_provider_postg.Text.{nonempty, to_lower}

unfoldable pub set_id : String → M SchemaData (Unit {0})
set_id id = modify (λ d. record d { id = id })

-- `d.HasChange` on a text
abbrev pub has_change : String → String → Bool
has_change old new = not (old == new)

unfoldable pub set_schema_name : ℕ → String → M SchemaData (Unit {0})
set_schema_name t database_name = do
  env ← ask
  d ← current
  if not (has_change d.old_name d.name)
      then pure tt
      else if not (nonempty d.name)
      then fail (text "Error setting schema name to an empty string")
      else (do
        wrap "Error updating schema NAME" (
            exec_sql (txn t) (
              "ALTER SCHEMA "
              ++ (env.quote_identifier d.old_name
                  ++ (" RENAME TO " ++ env.quote_identifier d.name))))
        set_id (generate_schema_id d database_name))

unfoldable pub set_schema_owner : ℕ → M SchemaData (Unit {0})
set_schema_owner t = do
  env ← ask
  d ← current
  if not (has_change d.old_owner d.owner)
      then pure tt
      else if not (nonempty d.owner)
      then fail (text "Error setting schema owner to an empty string")
      else wrap "Error updating schema OWNER" (
          exec_sql (txn t) (
            "ALTER SCHEMA "
            ++ (env.quote_identifier d.name ++ (" OWNER TO " ++ env.quote_identifier d.owner))))

-- `for _, query := range queries { txn.Exec(query) }`
unfoldable pub exec_all : ℕ → String → List String → M SchemaData (Unit {0})
exec_all t msg [] = pure tt
exec_all t msg (query ∷ queries) = do wrap msg (exec_sql (txn t) query); exec_all t msg queries

-- The REVOKEs of a dropped policy: only for a named role, and only if the role still exists.
unfoldable pub dropped_queries : ℕ → String → Policy → M SchemaData (List String)
dropped_queries t schema_name p = do
  env ← ask
  if not (nonempty p.role) then pure [] else (do
    r ←
        query_bool (txn t) "SELECT TRUE FROM pg_catalog.pg_roles WHERE rolname = $1"
          (str p.role ∷ [])
    found ← found_or "Error reading schema" r
    pure (if found then env.acl_revokes (schema_policy_to_acl env p) schema_name else []))

unfoldable pub all_dropped_queries : ℕ → String → List Policy → M SchemaData (List String)
all_dropped_queries t schema_name [] = pure []
all_dropped_queries t schema_name (p ∷ ps) = do
  queries ← dropped_queries t schema_name p
  rest ← all_dropped_queries t schema_name ps
  pure (List.◌++◌ queries rest)

unfoldable pub added_queries : Env → String → List Policy → List String
added_queries env schema_name [] = []
added_queries env schema_name (p ∷ ps) =
    List.◌++◌ (env.acl_grants (schema_policy_to_acl env p) schema_name)
      (added_queries env schema_name ps)

unfoldable pub updated_queries : Env → String → List (Policy × Policy) → List String
updated_queries env schema_name [] = []
updated_queries env schema_name ((old, new) ∷ ps) =
    List.◌++◌ (env.acl_revokes (schema_policy_to_acl env old) schema_name) (
      List.◌++◌ (env.acl_grants (schema_policy_to_acl env new) schema_name)
        (updated_queries env schema_name ps))

unfoldable pub set_schema_policy : ℕ → M SchemaData (Unit {0})
set_schema_policy t = do
  env ← ask
  d ← current
  if not d.policy_changed then pure tt else (do
    let changes = schema_changed_policies to_lower d.old_policy d.policy
    before ← history
    dropped ← all_dropped_queries t d.name (range env before changes.dropped)
    log ← history
    let queries = List.◌++◌ dropped (
        List.◌++◌ (added_queries env d.name (range env log changes.added))
          (updated_queries env d.name (range env log changes.updated)))
    with_roles_granted (txn t) (if nonempty d.owner then d.owner ∷ [] else [])
        (exec_all t "Error updating schema DCL" queries))
