-- ===== src/Tests/Texts.antt =====
-- Witnesses on texts, ids and policies.
use terraform_provider_postg.Base.{All, [], false, none, some, true, ◌↔◌, ◌∷◌, ◌≡◌}
use terraform_provider_postg.Effect.{ok}
use terraform_provider_postg.Extension.{ExtensionData, generate_extension_id, get_db_ext_name}
use terraform_provider_postg.Extension.Import.{get_db_ext_name-generate_extension_id}
use terraform_provider_postg.Helpers.Catalog.{get_database}
use terraform_provider_postg.Helpers.Privileges.{validate_privileges}
use terraform_provider_postg.Helpers.Privileges.Allowed.{
  IsOneOf, ObjectType, privileges_of, type_name, validate_privileges_iff,
}
use terraform_provider_postg.Helpers.Quote.{pq_quote_literal}
use terraform_provider_postg.Helpers.Quote.Literal.{
  read_escape_string, read_escape_string-pq_quote_literal, read_standard_string,
  read_standard_string-pq_quote_literal,
}
use terraform_provider_postg.Map.{get}
use terraform_provider_postg.ReplicationSlot.{
  ReplicationSlotData, generate_replication_slot_id, get_db_replication_slot_name,
}
use terraform_provider_postg.ReplicationSlot.Import.{
  get_db_replication_slot_name-generate_replication_slot_id,
}
use terraform_provider_postg.Schema.{Policy, SchemaData}
use terraform_provider_postg.Schema.Id.{generate_schema_id, get_db_schema_name}
use terraform_provider_postg.Schema.Id.Import.{get_db_schema_name-generate_schema_id}
use terraform_provider_postg.Schema.Policies.{schema_changed_policies}
use terraform_provider_postg.Schema.Policies.Partition.{
  changed, gone, kept, last_policy, schema_changed_policies_lem,
}
use terraform_provider_postg.Text.{replace_char, to_lower}
use terraform_provider_postg.Text.Split.{count_char}

abbrev app_schema : SchemaData
app_schema = record {
  id = "";
  name = "reports";
  old_name = "";
  database = "shop";
  owner = "";
  old_owner = "";
  drop_cascade = false;
  if_not_exists = true;
  policy = [];
  old_policy = [];
  policy_changed = false;
}

get_db_schema_name-generate_schema_id_example :
    (get_db_schema_name
        (record app_schema { name = ""; id = generate_schema_id app_schema "postgres" })
        "postgres"
      ≡ ok (get_database app_schema.database "postgres", app_schema.name))
    ↔ ((count_char b'.' (get_database app_schema.database "postgres") ≡ 0)
        × (count_char b'.' app_schema.name ≡ 0))
get_db_schema_name-generate_schema_id_example =
    get_db_schema_name-generate_schema_id app_schema "postgres" "postgres"

abbrev hstore : ExtensionData
hstore = record {
  id = "";
  name = "hstore";
  schema = "";
  old_schema = "";
  version = "";
  old_version = "";
  database = "shop";
  drop_cascade = false;
}

get_db_ext_name-generate_extension_id_example :
    (get_db_ext_name
        (record hstore { name = ""; id = generate_extension_id hstore "shop" })
        "postgres"
      ≡ ok ("shop", hstore.name))
    ↔ ((count_char b'.' "shop" ≡ 0) × (count_char b'.' hstore.name ≡ 0))
get_db_ext_name-generate_extension_id_example =
    get_db_ext_name-generate_extension_id hstore "shop" "postgres"

abbrev slot : ReplicationSlotData
slot = record { id = ""; name = "feed"; database = "shop"; plugin = "pgoutput" }

get_db_replication_slot_name-generate_replication_slot_id_example :
    (get_db_replication_slot_name
        (record slot { name = ""; id = generate_replication_slot_id slot "shop" })
        "postgres"
      ≡ ok ("shop", slot.name))
    ↔ ((count_char b'.' "shop" ≡ 0) × (count_char b'.' slot.name ≡ 0))
get_db_replication_slot_name-generate_replication_slot_id_example =
    get_db_replication_slot_name-generate_replication_slot_id slot "shop" "postgres"

read_escape_string-pq_quote_literal_example :
    read_escape_string (pq_quote_literal "it's a \\ here") ≡ some "it's a \\ here"
read_escape_string-pq_quote_literal_example = read_escape_string-pq_quote_literal "it's a \\ here"

read_standard_string-pq_quote_literal_example :
    read_standard_string (pq_quote_literal "it's a \\ here")
    ≡ some (replace_char b'\\' "\\\\" "it's a \\ here")
read_standard_string-pq_quote_literal_example =
    read_standard_string-pq_quote_literal "it's a \\ here"

validate_privileges_iff_example :
    (validate_privileges "table" ("SELECT" ∷ "INSERT" ∷ []) ≡ none) ↔ (
      (k : ObjectType) × (type_name k ≡ "table")
      × All (λ p. IsOneOf p (privileges_of k)) ("SELECT" ∷ "INSERT" ∷ []))
validate_privileges_iff_example = validate_privileges_iff "table" ("SELECT" ∷ "INSERT" ∷ [])

abbrev readers : Policy
readers = record {
  role = "Readers";
  create = false;
  create_with_grant = false;
  usage = true;
  usage_with_grant = false;
}

abbrev writers : Policy
writers = record readers { role = "writers"; create = true }

schema_changed_policies_lem_example :
    let before = last_policy to_lower "readers" (readers ∷ writers ∷ []) in
    let after = last_policy to_lower "readers" (writers ∷ []) in
    let changes = schema_changed_policies to_lower (readers ∷ writers ∷ []) (writers ∷ []) in
    (get "readers" changes.dropped ≡ gone before after)
    × (get "readers" changes.added ≡ gone after before)
    × (get "readers" changes.updated ≡ changed before after)
    × (get "readers" changes.unchanged ≡ kept before after)
schema_changed_policies_lem_example =
    schema_changed_policies_lem to_lower (readers ∷ writers ∷ []) (writers ∷ []) "readers"
