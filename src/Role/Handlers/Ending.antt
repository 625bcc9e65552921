-- ===== src/Role/Handlers/Ending.antt =====
-- How the handlers of postgresql/resource_postgresql_role.go end their transactions.
use terraform_provider_postg.Helpers.Transactions.Commits.{Decides, CommitsOnce}
use terraform_provider_postg.Helpers.Transactions.Commits.Rules.{commit_rules, once_rules}
use terraform_provider_postg.Helpers.Transactions.Sending.{
  Sends, Sends-OnTxn, Sends-ask_server, sends_rules, closing_rules, Quiet-Sends, Closes-Sends,
}
use terraform_provider_postg.Role.Handlers.{
  drop_role, resource_role_create, resource_role_delete, resource_role_update, role_settings,
  run_create_role, update_role, create_new, role_found, reassign_owned,
}
use terraform_provider_postg.Role.Read.{set_id}
use terraform_provider_postg.Base.{String, [], ℕ, ◌∷◌}
use terraform_provider_postg.Effect.{Rows, refused, rows}
use terraform_provider_postg.Effect.Emits.{Emits, Emits-bind}
use terraform_provider_postg.Helpers.Transactions.Closing.{Closes}
use terraform_provider_postg.Helpers.Transactions.Statements.{helper_rules, txn_rules, OnTxn}
use terraform_provider_postg.Role.Members.Statements.{
  alter_search_path-OnTxn, grant_roles-OnTxn, revoke_roles-OnTxn,
  set_idle_in_transaction_session_timeout-OnTxn, set_statement_timeout-OnTxn,
}
use terraform_provider_postg.Role.Read.Sending.{resource_role_read_impl-Sends}
use terraform_provider_postg.Role.Update.Statements.{alter_role-OnTxn}

role_settings-OnTxn : (t : ℕ) → Emits (OnTxn t) (role_settings t)
unfolding role_settings
role_settings-OnTxn t = search (
  Emits-bind, grant_roles-OnTxn, alter_search_path-OnTxn, set_statement_timeout-OnTxn,
  set_idle_in_transaction_session_timeout-OnTxn,
)

run_create_role-OnTxn : (t : ℕ) → Emits (OnTxn t) (run_create_role t)
unfolding run_create_role
run_create_role-OnTxn t = search (txn_rules, role_settings-OnTxn) depth 10

-- For every transaction, all that an update of a `postgresql_role` sends before its commit, the
-- lock included, is a statement or a query of that transaction.
pub update_role-OnTxn : (t : ℕ) → Emits (OnTxn t) (update_role t)
unfolding update_role
update_role-OnTxn t =
    search (helper_rules, alter_role-OnTxn, revoke_roles-OnTxn, role_settings-OnTxn) depth 10

reassign_owned-OnTxn : (t : ℕ) (role_name : String) → Emits (OnTxn t) (reassign_owned t role_name)
unfolding reassign_owned
reassign_owned-OnTxn t role_name = search txn_rules depth 10

-- For every transaction, all that a delete of a `postgresql_role` sends before its commit, the
-- temporary membership included, is a statement or a query of that transaction.
pub drop_role-OnTxn : (t : ℕ) → Emits (OnTxn t) (drop_role t)
unfolding drop_role
drop_role-OnTxn t = search (helper_rules, reassign_owned-OnTxn) depth 12

role_found-Sends : (r : Rows String) → Sends (role_found r)
unfolding role_found
role_found-Sends (refused e) = search sends_rules
role_found-Sends (rows []) = search sends_rules
role_found-Sends (rows (cell ∷ cells)) = search sends_rules

run_create_role-Sends : (t : ℕ) → Sends (run_create_role t)
run_create_role-Sends t = Sends-OnTxn t _ (run_create_role-OnTxn t)

update_role-Sends : (t : ℕ) → Sends (update_role t)
update_role-Sends t = Sends-OnTxn t _ (update_role-OnTxn t)

drop_role-Sends : (t : ℕ) → Sends (drop_role t)
drop_role-Sends t = Sends-OnTxn t _ (drop_role-OnTxn t)

ruleset leaves = (
  run_create_role-Sends, update_role-Sends, drop_role-Sends, role_found-Sends,
  resource_role_read_impl-Sends, Sends-ask_server,
)

create_new-CommitsOnce : CommitsOnce create_new
unfolding create_new set_id
create_new-CommitsOnce = search (once_rules, Quiet-Sends, leaves) depth 16

-- Deleting a `postgresql_role`, on every server and from every session, commits exactly once if it
-- returns no error, and commits nothing if it fails or panics.
pub resource_role_delete-Decides : Decides resource_role_delete
unfolding resource_role_delete set_id
resource_role_delete-Decides = search (commit_rules, Quiet-Sends, leaves) depth 16

-- Updating a `postgresql_role`, on every server and from every session, commits at most once, and
-- exactly once if it returns no error.
pub resource_role_update-CommitsOnce : CommitsOnce resource_role_update
unfolding resource_role_update
resource_role_update-CommitsOnce = search (once_rules, Quiet-Sends, leaves) depth 16

create_new-Closes : Closes create_new
unfolding create_new set_id
create_new-Closes = search (closing_rules, Closes-Sends, leaves) depth 16

-- Creating a `postgresql_role`, on every server, from every session and however it ends, has ended
-- every transaction that it began, and the transactions of others are open or not as before.
pub resource_role_create-Closes : Closes resource_role_create
unfolding resource_role_create set_id
resource_role_create-Closes =
    search (closing_rules, Closes-Sends, leaves, create_new-Closes) depth 16

-- Updating a `postgresql_role`, on every server, from every session and however it ends, has ended
-- every transaction that it began, and the transactions of others are open or not as before.
pub resource_role_update-Closes : Closes resource_role_update
unfolding resource_role_update
resource_role_update-Closes = search (closing_rules, Closes-Sends, leaves) depth 16

-- Deleting a `postgresql_role`, on every server, from every session and however it ends, has ended
-- every transaction that it began, and the transactions of others are open or not as before.
pub resource_role_delete-Closes : Closes resource_role_delete
unfolding resource_role_delete set_id
resource_role_delete-Closes = search (closing_rules, Closes-Sends, leaves) depth 16
