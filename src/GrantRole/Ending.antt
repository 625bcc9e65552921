-- ===== src/GrantRole/Ending.antt =====
-- How the handlers of postgresql/resource_postgresql_grant_role.go end their transactions.
use terraform_provider_postg.Helpers.Transactions.Commits.{Decides, CommitsOnce}
use terraform_provider_postg.Helpers.Transactions.Commits.Rules.{commit_rules, once_rules}
use terraform_provider_postg.Helpers.Transactions.Sending.{
  Closes-Sends, Quiet-Sends, Sends, sends_rules, closing_rules,
}
use terraform_provider_postg.GrantRole.{
  grant_role, read_grant_role, resource_grant_role_create, resource_grant_role_delete, revoke_role,
  require_privileges, store_grant_role, set_id,
}
use terraform_provider_postg.Base.{Bool, String}
use terraform_provider_postg.Effect.{Handle, Scan, failed, no_rows, row}
use terraform_provider_postg.Helpers.Transactions.Closing.{Closes}

grant_role-Sends : (h : Handle) → Sends (grant_role h)
unfolding grant_role
grant_role-Sends h = search sends_rules

revoke_role-Sends : (h : Handle) → Sends (revoke_role h)
unfolding revoke_role
revoke_role-Sends h = search sends_rules

store_grant_role-Sends : (r : Scan (String × String × Bool)) → Sends (store_grant_role r)
unfolding store_grant_role set_id
store_grant_role-Sends no_rows = search sends_rules
store_grant_role-Sends (failed e) = search sends_rules
store_grant_role-Sends (row cells) = search sends_rules

read_grant_role-Sends : (h : Handle) → Sends (read_grant_role h)
unfolding read_grant_role
read_grant_role-Sends h = search (sends_rules, store_grant_role-Sends)

ruleset leaves = (grant_role-Sends, revoke_role-Sends, read_grant_role-Sends)

-- Deleting a `postgresql_grant_role`, on every server and from every session, commits exactly once
-- if it returns no error, and commits nothing if it fails or panics.
pub resource_grant_role_delete-Decides : Decides resource_grant_role_delete
unfolding resource_grant_role_delete require_privileges
resource_grant_role_delete-Decides = search (commit_rules, Quiet-Sends, leaves) depth 16

-- Creating a `postgresql_grant_role`, on every server and from every session, commits at most once,
-- and exactly once if it returns no error.
pub resource_grant_role_create-CommitsOnce : CommitsOnce resource_grant_role_create
unfolding resource_grant_role_create require_privileges set_id
resource_grant_role_create-CommitsOnce = search (once_rules, Quiet-Sends, leaves) depth 16

pub resource_grant_role_delete-Closes : Closes resource_grant_role_delete
unfolding resource_grant_role_delete require_privileges
resource_grant_role_delete-Closes = search (closing_rules, Closes-Sends, leaves) depth 16

-- Creating a `postgresql_grant_role`, on every server, from every session and however it ends, has
-- ended every transaction that it began, and the transactions of others are open or not as before.
pub resource_grant_role_create-Closes : Closes resource_grant_role_create
unfolding resource_grant_role_create require_privileges set_id
resource_grant_role_create-Closes = search (closing_rules, Closes-Sends, leaves) depth 16
