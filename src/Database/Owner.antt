-- ===== src/Database/Owner.antt =====
-- What create, delete and a change of the owner in postgresql/resource_postgresql_database.go have in
-- common: the lock on the connected role, and the temporary membership in the owner.
pub mod Restores
pub mod Locking
use terraform_provider_postg.Base.{Option, String, none, some, ℕ, if◌then◌else◌}
use terraform_provider_postg.Effect.{M, attempt, crash, defer, pool, txn, ◌>>=◌, ◌>>◌}
use terraform_provider_postg.Helpers.Catalog.{pg_lock_role}
use terraform_provider_postg.Helpers.Membership.{grant_role_membership, revoke_role_membership}
use terraform_provider_postg.Helpers.Transactions.{deferred_rollback, start_transaction}

module _ {D : Type 0} where
  -- `pgLockRole` on the result of `startTransaction`, which is a nil `*sql.Tx` beside an error; its
  -- first statement is an `Exec`, which panics on nil.
  lock_role : Option ℕ → String → M D (Unit {0})
  lock_role none role = crash
  lock_role (some t) role = pg_lock_role (txn t) role

  -- `deferredRollback` on the same, and `Rollback` panics on nil.
  rollback_lock : Option ℕ → M D (Unit {0})
  rollback_lock none = crash
  rollback_lock (some t) = deferred_rollback t

module _ {D A : Type 0} where
  -- The error of `startTransaction` is shadowed before anything reads it. The rollback is deferred
  -- only behind the lock.
  unfoldable pub with_role_locked : String → M D A → M D A
  unfolding lock_role rollback_lock
  with_role_locked role rest = do
    t ← attempt (start_transaction "")
    lock_role t role
    defer (rollback_lock t) rest

  -- The deferred revoke's error is assigned to a variable that nothing reads any more.
  unfoldable pub with_membership : (owner user : String) → M D A → M D A
  with_membership owner user rest = do
    granted ← grant_role_membership pool owner user
    if granted then defer (revoke_role_membership pool owner user) rest else rest

  unfoldable pub as_owner : (owner user : String) → M D A → M D A
  unfolding with_role_locked with_membership
  as_owner owner user rest = with_role_locked user (with_membership owner user rest)
