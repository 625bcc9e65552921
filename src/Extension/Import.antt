-- ===== src/Extension/Import.antt =====
-- The ids of `postgresql_extension` as an import reads them back.
use Prim.Native.String.{◌++◌}
use terraform_provider_postg.Extension.{generate_extension_id, get_db_ext_name, two_parts}
use terraform_provider_postg.Extension.{ExtensionData}
use terraform_provider_postg.Base.{List, String, [], ◌↔◌, ◌∷◌, ◌≡◌}
use terraform_provider_postg.Effect.{ok}
use terraform_provider_postg.Text.{join, split_char}
use terraform_provider_postg.Text.Split.{count_char, split-two}

two_parts_iff :
    (id : String) (parts : List String) (a b : String)
    → (two_parts id parts ≡ ok (a, b)) ↔ (parts ≡ a ∷ b ∷ [])
unfolding two_parts
two_parts_iff id [] a b = ((λ e. cc), λ e. cc)
two_parts_iff id (p ∷ []) a b = ((λ e. cc), λ e. cc)
two_parts_iff id (p ∷ q ∷ []) a b = ((λ e. cc), λ e. cc)
two_parts_iff id (p ∷ q ∷ r ∷ ps) a b = ((λ e. cc), λ e. cc)

-- The id of any extension, imported into a resource without a name, gives its database and its name
-- exactly if neither holds a dot.
pub get_db_ext_name-generate_extension_id :
    (d : ExtensionData) (database connected : String)
    → (get_db_ext_name (record d { name = ""; id = generate_extension_id d database }) connected
        ≡ ok (database, d.name))
      ↔ ((count_char b'.' database ≡ 0) × (count_char b'.' d.name ≡ 0))
unfolding get_db_ext_name generate_extension_id join
get_db_ext_name-generate_extension_id d database connected =
    let id = database ++ ("." ++ d.name) in
    let parts = two_parts_iff id (split_char b'.' id) database d.name in
    let split = split-two database d.name in ((λ e. split.0 (parts.0 e)), λ h. parts.1 (split.1 h))
