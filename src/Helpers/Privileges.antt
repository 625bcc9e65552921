-- ===== src/Helpers/Privileges.antt =====
-- `allowedPrivileges`, `validatePrivileges` and the sets of postgresql/helpers.go.
pub mod Allowed
use Prim.Native.String.{◌++◌}
use terraform_provider_postg.Base.{
  String, Bool, false, ◌||◌, Option, none, some, List, [], ◌∷◌, ◌==◌, if◌then◌else◌,
}
use terraform_provider_postg.Text.{join}
use terraform_provider_postg.Effect.{Error, text, Env}

unfoldable pub slice_contains_str : List String → String → Bool
slice_contains_str [] needle = false
slice_contains_str (s ∷ haystack) needle = s == needle || slice_contains_str haystack needle

abbrev pub table_privileges : List String
table_privileges =
    "ALL" ∷ "SELECT" ∷ "INSERT" ∷ "UPDATE" ∷ "DELETE" ∷ "TRUNCATE" ∷ "REFERENCES" ∷ "TRIGGER" ∷ []

abbrev pub allowed_privileges : List (String × List String)
allowed_privileges =
    ("database", "ALL" ∷ "CREATE" ∷ "CONNECT" ∷ "TEMPORARY" ∷ "TEMP" ∷ [])
    ∷ ("table", table_privileges)
    ∷ ("sequence", "ALL" ∷ "USAGE" ∷ "SELECT" ∷ "UPDATE" ∷ [])
    ∷ ("schema", "ALL" ∷ "CREATE" ∷ "USAGE" ∷ [])
    ∷ ("function", "ALL" ∷ "EXECUTE" ∷ [])
    ∷ ("type", "ALL" ∷ "USAGE" ∷ [])
    ∷ []

unfoldable pub lookup {ℓ} : {V : Type ℓ} → String → List (String × V) → Option V
lookup key [] = none
lookup key ((k, v) ∷ pairs) = if k == key then some v else lookup key pairs

check_all : String → List String → List String → Option Error
check_all object_type allowed [] = none
check_all object_type allowed (priv ∷ privileges) =
    if slice_contains_str allowed priv
    then check_all object_type allowed privileges
    else some (text (priv ++ (" is not an allowed privilege for object type " ++ object_type)))

-- The check against the entry of `allowedPrivileges`.
check_entry : String → List String → Option (List String) → Option Error
unfolding check_all
check_entry object_type privileges none = some (text ("unknown object type " ++ object_type))
check_entry object_type privileges (some allowed) = check_all object_type allowed privileges

-- The error, if the privileges are not allowed for the object type.
unfoldable pub validate_privileges : String → List String → Option Error
unfolding check_entry lookup
validate_privileges object_type privileges =
    check_entry object_type privileges (lookup object_type allowed_privileges)

qualified : Env → String → List String → List String
qualified env schema [] = []
qualified env schema (ident ∷ idents) =
    (env.quote_identifier schema ++ ("." ++ env.quote_identifier ident))
    ∷ qualified env schema idents

unfoldable pub set_to_pg_ident_list : Env → String → List String → String
unfolding qualified
set_to_pg_ident_list env schema idents = join (qualified env schema idents) ","
