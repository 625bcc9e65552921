-- ===== src/Grant/Handlers/Ending.antt =====
-- How the handlers of postgresql/resource_postgresql_grant.go end their transactions.
use terraform_provider_postg.Helpers.Transactions.Commits.{Decides, CommitsOnce}
use terraform_provider_postg.Helpers.Transactions.Commits.Rules.{commit_rules, once_rules}
use terraform_provider_postg.Helpers.Transactions.Sending.{
  Sends, Sends-OnTxn, sends_rules, closing_rules, Quiet-Sends, Closes-Sends,
}
use terraform_provider_postg.Grant.Handlers.{
  apply_privileges, grant_role_privileges, resource_grant_create, resource_grant_delete,
  revoke_role_privileges, set_id, withdraw_privileges, require_privileges, unsupported,
}
use terraform_provider_postg.Base.{ℕ}
use terraform_provider_postg.Effect.{txn}
use terraform_provider_postg.Effect.Emits.{Emits}
use terraform_provider_postg.Grant.Id.{get_roles_to_grant}
use terraform_provider_postg.Grant.Read.Sending.{read_role_privileges-Sends}
use terraform_provider_postg.Helpers.Transactions.Closing.{Closes}
use terraform_provider_postg.Helpers.Transactions.Statements.{helper_rules, txn_rules, OnTxn}

revoke_role_privileges-OnTxn : (t : ℕ) → Emits (OnTxn t) (revoke_role_privileges (txn t))
unfolding revoke_role_privileges
revoke_role_privileges-OnTxn t = search txn_rules

grant_role_privileges-OnTxn : (t : ℕ) → Emits (OnTxn t) (grant_role_privileges (txn t))
unfolding grant_role_privileges
grant_role_privileges-OnTxn t = search txn_rules

get_roles_to_grant-OnTxn : (t : ℕ) → Emits (OnTxn t) (get_roles_to_grant (txn t))
unfolding get_roles_to_grant
get_roles_to_grant-OnTxn t = search helper_rules depth 12

-- For every transaction, all that the REVOKE and the GRANT of a `postgresql_grant` send, the
-- queries on owners and the temporary memberships included, is a statement or a query of that
-- transaction.
pub apply_privileges-OnTxn : (t : ℕ) → Emits (OnTxn t) (apply_privileges t)
unfolding apply_privileges
apply_privileges-OnTxn t =
    search
      (
        helper_rules, revoke_role_privileges-OnTxn, grant_role_privileges-OnTxn,
        get_roles_to_grant-OnTxn,
      )
      depth 12

withdraw_privileges-OnTxn : (t : ℕ) → Emits (OnTxn t) (withdraw_privileges t)
unfolding withdraw_privileges
withdraw_privileges-OnTxn t =
    search (helper_rules, revoke_role_privileges-OnTxn, get_roles_to_grant-OnTxn) depth 12

apply_privileges-Sends : (t : ℕ) → Sends (apply_privileges t)
apply_privileges-Sends t = Sends-OnTxn t _ (apply_privileges-OnTxn t)

withdraw_privileges-Sends : (t : ℕ) → Sends (withdraw_privileges t)
withdraw_privileges-Sends t = Sends-OnTxn t _ (withdraw_privileges-OnTxn t)

require_privileges-Sends : Sends require_privileges
unfolding require_privileges unsupported
require_privileges-Sends = search sends_rules

ruleset leaves = (
  require_privileges-Sends, apply_privileges-Sends, withdraw_privileges-Sends,
  read_role_privileges-Sends,
)

-- Deleting a `postgresql_grant`, on every server and from every session, commits exactly once if it
-- returns no error, and commits nothing if it fails or panics.
pub resource_grant_delete-Decides : Decides resource_grant_delete
unfolding resource_grant_delete
resource_grant_delete-Decides = search (commit_rules, Quiet-Sends, leaves) depth 16

-- Creating or updating a `postgresql_grant`, on every server and from every session, commits at
-- most once, and exactly once if it returns no error.
pub resource_grant_create-CommitsOnce : CommitsOnce resource_grant_create
unfolding resource_grant_create set_id
resource_grant_create-CommitsOnce = search (once_rules, Quiet-Sends, leaves) depth 16

-- Deleting a `postgresql_grant`, on every server, from every session and however it ends, has ended
-- every transaction that it began, and the transactions of others are open or not as before.
pub resource_grant_delete-Closes : Closes resource_grant_delete
unfolding resource_grant_delete
resource_grant_delete-Closes = search (closing_rules, Closes-Sends, leaves) depth 16

-- Creating or updating a `postgresql_grant`, on every server, from every session and however it
-- ends, has ended every transaction that it began, and the transactions of others are open or not
-- as before.
pub resource_grant_create-Closes : Closes resource_grant_create
unfolding resource_grant_create set_id
resource_grant_create-Closes = search (closing_rules, Closes-Sends, leaves) depth 16
