-- ===== src/DefaultPrivileges/Ending.antt =====
-- How the handlers of postgresql/resource_postgresql_default_privileges.go end their transactions.
use terraform_provider_postg.Helpers.Transactions.Commits.{Decides, CommitsOnce}
use terraform_provider_postg.Helpers.Transactions.Commits.Rules.{commit_rules, once_rules}
use terraform_provider_postg.Helpers.Transactions.Sending.{
  Sends, Sends-OnTxn, sends_rules, closing_rules, Quiet-Sends, Closes-Sends,
}
use terraform_provider_postg.DefaultPrivileges.{
  DefaultPrivilegesData, grant_role_default_privileges, read_role_default_privileges,
  resource_default_privileges_create, resource_default_privileges_delete,
  revoke_role_default_privileges, set_id, store_default_privileges, query_default_privileges,
}
use terraform_provider_postg.Base.{List, String, [], ℕ, ◌∷◌}
use terraform_provider_postg.Effect.{Handle, Scan, failed, no_rows, row, txn, ◌>>◌}
use terraform_provider_postg.Effect.Emits.{Emits, Emits-bind}
use terraform_provider_postg.Helpers.Catalog.{get_role_oid, pg_lock_role}
use terraform_provider_postg.Helpers.Membership.{with_roles_granted}
use terraform_provider_postg.Helpers.Transactions.Closing.{Closes}
use terraform_provider_postg.Helpers.Transactions.Statements.{
  txn_rules, OnTxn, get_role_oid-OnTxn, pg_lock_role-OnTxn, with_roles_granted-OnTxn,
}

revoke-OnTxn : (t : ℕ) → Emits (OnTxn t) (revoke_role_default_privileges (txn t))
unfolding revoke_role_default_privileges
revoke-OnTxn t = search txn_rules

grant-OnTxn : (t : ℕ) → Emits (OnTxn t) (grant_role_default_privileges (txn t))
unfolding grant_role_default_privileges
grant-OnTxn t = search txn_rules

withdrawn-Sends :
    (t : ℕ) (roles : List String)
    → Sends (with_roles_granted (txn t) roles (revoke_role_default_privileges (txn t)))
withdrawn-Sends t roles = Sends-OnTxn t _ (with_roles_granted-OnTxn t roles _ (revoke-OnTxn t))

applied-Sends :
    (t : ℕ) (roles : List String)
    → Sends (
        with_roles_granted
          (txn t)
          roles
          (do revoke_role_default_privileges (txn t); grant_role_default_privileges (txn t)))
applied-Sends t roles =
    Sends-OnTxn t _
      (with_roles_granted-OnTxn t roles _ (Emits-bind _ _ (revoke-OnTxn t) λ _. grant-OnTxn t))

lock-Sends : (t : ℕ) (role : String) → Sends (pg_lock_role {D = DefaultPrivilegesData} (txn t) role)
lock-Sends t role = Sends-OnTxn t _ (pg_lock_role-OnTxn t role)

oid-Sends : (t : ℕ) (role : String) → Sends (get_role_oid {D = DefaultPrivilegesData} (txn t) role)
oid-Sends t role = Sends-OnTxn t _ (get_role_oid-OnTxn t role)

store_default_privileges-Sends : (r : Scan (List String)) → Sends (store_default_privileges r)
unfolding store_default_privileges set_id
store_default_privileges-Sends no_rows = search sends_rules
store_default_privileges-Sends (failed e) = search sends_rules
store_default_privileges-Sends (row []) = search sends_rules
store_default_privileges-Sends (row (p ∷ ps)) = search sends_rules depth 12

query_default_privileges-Sends :
    (h : Handle) (d : DefaultPrivilegesData) (role_oid : ℕ)
    → Sends (query_default_privileges h d role_oid)
unfolding query_default_privileges
query_default_privileges-Sends h d role_oid = search sends_rules

read-Sends : (t : ℕ) → Sends (read_role_default_privileges (txn t))
unfolding read_role_default_privileges
read-Sends t =
    search
      (
        sends_rules, lock-Sends, oid-Sends, query_default_privileges-Sends,
        store_default_privileges-Sends,
      )
      depth 12

ruleset leaves = (withdrawn-Sends, applied-Sends, lock-Sends, read-Sends)

-- Deleting a `postgresql_default_privileges`, on every server and from every session, commits
-- exactly once if it returns no error, and commits nothing if it fails or panics.
pub resource_default_privileges_delete-Decides : Decides resource_default_privileges_delete
unfolding resource_default_privileges_delete
resource_default_privileges_delete-Decides = search (commit_rules, Quiet-Sends, leaves) depth 16

-- Creating or updating a `postgresql_default_privileges`, on every server and from every session,
-- commits at most once, and exactly once if it returns no error.
pub resource_default_privileges_create-CommitsOnce : CommitsOnce resource_default_privileges_create
unfolding resource_default_privileges_create set_id
resource_default_privileges_create-CommitsOnce = search (once_rules, Quiet-Sends, leaves) depth 16

pub resource_default_privileges_delete-Closes : Closes resource_default_privileges_delete
unfolding resource_default_privileges_delete
resource_default_privileges_delete-Closes = search (closing_rules, Closes-Sends, leaves) depth 16

-- Creating or updating a `postgresql_default_privileges`, on every server, from every session and
-- however it ends, has ended every transaction that it began, and the transactions of others are
-- open or not as before.
pub resource_default_privileges_create-Closes : Closes resource_default_privileges_create
unfolding resource_default_privileges_create set_id
resource_default_privileges_create-Closes = search (closing_rules, Closes-Sends, leaves) depth 16
