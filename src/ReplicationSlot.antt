-- ===== src/ReplicationSlot.antt =====
-- postgresql/resource_postgresql_replication_slot.go: the resource `postgresql_replication_slot`.
pub mod Ending
pub mod Import
use Prim.Native.String.{◌++◌}
use terraform_provider_postg.Base.{Bool, List, String, [], false, if◌then◌else◌, not, true, ◌∷◌}
use terraform_provider_postg.Effect.{
  M, Result, Scan, ask, crash, current, err, exec_args, fail, failed, modify, no_rows, ok, panic,
  pool, pure, query_string, row, str, text, txn, wrap, wrapped, ◌>>=◌, ◌>>◌,
}
use terraform_provider_postg.Helpers.Catalog.{db_exists, get_database}
use terraform_provider_postg.Helpers.Transactions.{commit_txn, with_txn}
use terraform_provider_postg.Text.{join, nonempty, split_char}

pub record ReplicationSlotData : Type 0 where
  pub id : String
  pub name : String
  pub database : String
  pub plugin : String

set_id : String → M ReplicationSlotData (Unit {0})
set_id id = modify (λ d. record d { id = id })

unfoldable pub generate_replication_slot_id : ReplicationSlotData → String → String
generate_replication_slot_id d database_name = join (database_name ∷ d.name ∷ []) "."

two_parts : String → List String → Result (String × String)
two_parts id (database ∷ name ∷ []) = ok (database, name)
two_parts id parsed = err (
    text (
      "Replication Slot ID "
      ++ (id
          ++ (" has not the expected format 'database.replication_slot': ["
              ++ (join parsed " " ++ "]")))))

unfoldable pub get_db_replication_slot_name :
    ReplicationSlotData → String → Result (String × String)
unfolding two_parts
get_db_replication_slot_name d database_name =
    if nonempty d.name
    then ok (get_database d.database database_name, d.name)
    else two_parts d.id (split_char b'.' d.id)

of_result : Result (String × String) → M ReplicationSlotData (String × String)
of_result (ok names) = pure names
of_result (err e) = fail e
of_result panic = crash

store_slot : String → String → Scan String → M ReplicationSlotData (Unit {0})
unfolding set_id
store_slot database slot_name no_rows = set_id ""
store_slot database slot_name (failed e) = fail (wrapped "Error reading ReplicationSlot" e)
store_slot database slot_name (row plugin) = do
  modify (λ d. record d { name = slot_name; plugin = plugin; database = database })
  d ← current
  set_id (generate_replication_slot_id d database)

unfoldable pub resource_replication_slot_read : M ReplicationSlotData (Unit {0})
unfolding store_slot of_result
resource_replication_slot_read = do
  env ← ask
  d ← current
  names ← of_result (get_db_replication_slot_name d env.client_database)
  with_txn names.0 (λ t. do
    r ←
        query_string (txn t)
          "SELECT plugin FROM pg_catalog.pg_replication_slots WHERE slot_name = $1 AND database = $2"
          (str names.1 ∷ str names.0 ∷ [])
    store_slot names.0 names.1 r)

unfoldable pub resource_replication_slot_create : M ReplicationSlotData (Unit {0})
unfolding set_id
resource_replication_slot_create = do
  env ← ask
  d ← current
  let database = get_database d.database env.client_database
  with_txn database (λ t. do
    exec_args (txn t) "SELECT FROM pg_create_logical_replication_slot($1, $2)"
        (str d.name ∷ str d.plugin ∷ [])
    wrap "Error creating ReplicationSlot" (commit_txn t)
    set_id (generate_replication_slot_id d database)
    resource_replication_slot_read)

-- An error other than ErrNoRows is returned as it is.
slot_found : Scan String → M ReplicationSlotData Bool
slot_found no_rows = pure false
slot_found (failed e) = fail e
slot_found (row _) = pure true

unfoldable pub resource_replication_slot_exists : M ReplicationSlotData Bool
unfolding of_result slot_found
resource_replication_slot_exists = do
  env ← ask
  d ← current
  names ← of_result (get_db_replication_slot_name d env.client_database)
  exists ← db_exists pool names.0
  if not exists
      then pure false
      else with_txn names.0 (λ t. do
        r ←
            query_string (txn t)
              "SELECT slot_name FROM pg_catalog.pg_replication_slots WHERE slot_name = $1 and database = $2"
              (str names.1 ∷ str names.0 ∷ [])
        slot_found r)

unfoldable pub resource_replication_slot_delete : M ReplicationSlotData (Unit {0})
unfolding set_id
resource_replication_slot_delete = do
  env ← ask
  d ← current
  with_txn (get_database d.database env.client_database) (λ t. do
    exec_args (txn t) "SELECT pg_drop_replication_slot($1)" (str d.name ∷ [])
    wrap "Error deleting ReplicationSlot" (commit_txn t)
    set_id "")
