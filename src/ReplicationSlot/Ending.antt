-- ===== src/ReplicationSlot/Ending.antt =====
-- How the handlers of postgresql/resource_postgresql_replication_slot.go end their transactions.
use terraform_provider_postg.Helpers.Transactions.Commits.{Quiet, Decides, CommitsOnce}
use terraform_provider_postg.Helpers.Transactions.Commits.Rules.{
  commit_rules, once_rules, quiet_rules,
}
use terraform_provider_postg.Helpers.Transactions.Sending.{
  Sends, Sends-ask_server, Sends-exec_args, sends_rules, closing_rules, Quiet-Sends, Closes-Sends,
}
use terraform_provider_postg.ReplicationSlot.{
  resource_replication_slot_create, resource_replication_slot_delete,
  resource_replication_slot_read, set_id, store_slot, of_result,
}
use terraform_provider_postg.Base.{String}
use terraform_provider_postg.Effect.{Result, Scan, err, failed, no_rows, ok, panic, row}
use terraform_provider_postg.Helpers.Transactions.Closing.{Closes}

of_result-Sends : (r : Result (String × String)) → Sends (of_result r)
unfolding of_result
of_result-Sends (ok names) = search sends_rules
of_result-Sends (err e) = search sends_rules
of_result-Sends panic = search sends_rules

store_slot-Sends : (database name : String) (r : Scan String) → Sends (store_slot database name r)
unfolding store_slot set_id
store_slot-Sends database name no_rows = search sends_rules
store_slot-Sends database name (failed e) = search sends_rules
store_slot-Sends database name (row plugin) = search sends_rules

ruleset leaves = (of_result-Sends, store_slot-Sends, Sends-ask_server, Sends-exec_args)

read-Quiet : Quiet resource_replication_slot_read
unfolding resource_replication_slot_read
read-Quiet = search (quiet_rules, Quiet-Sends, leaves) depth 12

read-Closes : Closes resource_replication_slot_read
unfolding resource_replication_slot_read
read-Closes = search (closing_rules, Closes-Sends, leaves) depth 12

-- Deleting a `postgresql_replication_slot`, on every server and from every session, commits exactly
-- once if it returns no error, and commits nothing if it fails or panics.
pub resource_replication_slot_delete-Decides : Decides resource_replication_slot_delete
unfolding resource_replication_slot_delete set_id
resource_replication_slot_delete-Decides = search (commit_rules, Quiet-Sends, leaves) depth 16

-- Creating a `postgresql_replication_slot`, on every server and from every session, commits at most
-- once, and exactly once if it returns no error.
pub resource_replication_slot_create-CommitsOnce : CommitsOnce resource_replication_slot_create
unfolding resource_replication_slot_create set_id
resource_replication_slot_create-CommitsOnce =
    search (once_rules, Quiet-Sends, leaves, read-Quiet) depth 16

-- Creating a `postgresql_replication_slot`, on every server, from every session and however it
-- ends, has ended every transaction that it began, and the transactions of others are open or not
-- as before.
pub resource_replication_slot_create-Closes : Closes resource_replication_slot_create
unfolding resource_replication_slot_create set_id
resource_replication_slot_create-Closes =
    search (closing_rules, Closes-Sends, leaves, read-Closes) depth 16
