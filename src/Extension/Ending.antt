-- ===== src/Extension/Ending.antt =====
-- How the handlers of postgresql/resource_postgresql_extension.go end their transactions.
use terraform_provider_postg.Helpers.Transactions.Commits.{Quiet, Decides, CommitsOnce}
use terraform_provider_postg.Helpers.Transactions.Commits.Rules.{
  commit_rules, once_rules, quiet_rules,
}
use terraform_provider_postg.Helpers.Transactions.Sending.{
  Sends, Sends-ask_server, Sends-exec_args, sends_rules, closing_rules, Quiet-Sends, Closes-Sends,
}
use terraform_provider_postg.Extension.{
  apply_changes, resource_extension_create, resource_extension_delete, resource_extension_read_impl,
  resource_extension_update, set_ext_schema, set_ext_version, require_extension, set_id,
  store_extension, of_result,
}
use terraform_provider_postg.Base.{String, ℕ}
use terraform_provider_postg.Effect.{Result, Scan, err, failed, no_rows, ok, panic, row}
use terraform_provider_postg.Helpers.Transactions.Closing.{Closes}

of_result-Sends : (r : Result (String × String)) → Sends (of_result r)
unfolding of_result
of_result-Sends (ok names) = search sends_rules
of_result-Sends (err e) = search sends_rules
of_result-Sends panic = search sends_rules

store_extension-Sends :
    (database name : String) (r : Scan (String × String)) → Sends (store_extension database name r)
unfolding store_extension set_id
store_extension-Sends database name no_rows = search sends_rules
store_extension-Sends database name (failed e) = search sends_rules
store_extension-Sends database name (row cells) = search sends_rules

set_ext_schema-Sends : (t : ℕ) → Sends (set_ext_schema t)
unfolding set_ext_schema
set_ext_schema-Sends t = search sends_rules depth 12

set_ext_version-Sends : (t : ℕ) → Sends (set_ext_version t)
unfolding set_ext_version
set_ext_version-Sends t = search sends_rules depth 12

apply_changes-Sends : (t : ℕ) → Sends (apply_changes t)
unfolding apply_changes
apply_changes-Sends t = search (sends_rules, set_ext_schema-Sends, set_ext_version-Sends)

require_extension-Sends : Sends require_extension
unfolding require_extension
require_extension-Sends = search sends_rules

ruleset leaves = (
  of_result-Sends, store_extension-Sends, apply_changes-Sends, require_extension-Sends,
  Sends-ask_server, Sends-exec_args,
)

read_impl-Quiet : Quiet resource_extension_read_impl
unfolding resource_extension_read_impl
read_impl-Quiet = search (quiet_rules, Quiet-Sends, leaves) depth 12

read_impl-Closes : Closes resource_extension_read_impl
unfolding resource_extension_read_impl
read_impl-Closes = search (closing_rules, Closes-Sends, leaves) depth 12

-- Deleting a `postgresql_extension`, on every server and from every session, commits exactly once
-- if it returns no error, and commits nothing if it fails or panics.
pub resource_extension_delete-Decides : Decides resource_extension_delete
unfolding resource_extension_delete set_id
resource_extension_delete-Decides = search (commit_rules, Quiet-Sends, leaves) depth 16

-- Creating a `postgresql_extension`, on every server and from every session, commits at most once,
-- and exactly once if it returns no error.
pub resource_extension_create-CommitsOnce : CommitsOnce resource_extension_create
unfolding resource_extension_create set_id
resource_extension_create-CommitsOnce =
    search (once_rules, Quiet-Sends, leaves, read_impl-Quiet) depth 16

-- Updating a `postgresql_extension`, on every server and from every session, commits at most once,
-- and exactly once if it returns no error.
pub resource_extension_update-CommitsOnce : CommitsOnce resource_extension_update
unfolding resource_extension_update
resource_extension_update-CommitsOnce =
    search (once_rules, Quiet-Sends, leaves, read_impl-Quiet) depth 16

pub resource_extension_delete-Closes : Closes resource_extension_delete
unfolding resource_extension_delete set_id
resource_extension_delete-Closes = search (closing_rules, Closes-Sends, leaves) depth 16

-- Updating a `postgresql_extension`, on every server, from every session and however it ends, has
-- ended every transaction that it began, and the transactions of others are open or not as before.
pub resource_extension_update-Closes : Closes resource_extension_update
unfolding resource_extension_update
resource_extension_update-Closes =
    search (closing_rules, Closes-Sends, leaves, read_impl-Closes) depth 16
