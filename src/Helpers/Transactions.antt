-- ===== src/Helpers/Transactions.antt =====
-- `startTransaction`, `deferredRollback` and `PGResourceFunc` of postgresql/helpers.go.
pub mod Statements
pub mod Run
pub mod Commits
pub mod Closing
pub mod Sending
use terraform_provider_postg.Base.{ℕ, suc, String, ◌&&◌, not, [], ◌∷◌, ◌==◌, if◌then◌else◌}
use terraform_provider_postg.Text.{nonempty}
use terraform_provider_postg.Effect.{
  begin, exec, query, commit, rollback, Log, Env, M, pure, ask, history, emit, ◌>>=◌, ◌>>◌, defer,
  of_result, or_fail, wrap,
}

-- How many transactions the log has begun; the next one has this number.
abbrev pub begun : Log → ℕ
begun [] = 0
begun (begin _ _ ∷ log) = suc (begun log)
begun (exec _ _ _ _ ∷ log) = begun log
begun (query _ _ _ ∷ log) = begun log
begun (commit _ _ ∷ log) = begun log
begun (rollback _ ∷ log) = begun log

-- The database that `startTransaction` connects to.
pub target_database : Env → String → String
target_database env database =
    if nonempty database && not (database == env.client_database)
    then database
    else env.client_database

module _ {D : Type 0} where
  -- `db.Begin()`
  begin_txn : String → M D ℕ
  begin_txn database = do
    env ← ask
    log ← history
    let e = env.begin_error log database
    emit (begin database e)
    or_fail e
    pure (begun log)

  unfoldable pub start_transaction : String → M D ℕ
  unfolding begin_txn
  start_transaction database = do
    env ← ask
    log ← history
    of_result (env.connect_result log (target_database env database))
    wrap "could not start transaction" (begin_txn (target_database env database))

  -- The rollback's own error is logged only.
  unfoldable pub deferred_rollback : ℕ → M D (Unit {0})
  deferred_rollback t = emit (rollback t)

  -- `txn.Commit()`
  unfoldable pub commit_txn : ℕ → M D (Unit {0})
  commit_txn t = do
    env ← ask
    log ← history
    let e = env.commit_error log t
    emit (commit t e)
    or_fail e

module _ {D A : Type 0} where
  -- A transaction whose rollback is deferred, and the rest of the function.
  unfoldable pub with_txn : String → (ℕ → M D A) → M D A
  unfolding deferred_rollback
  with_txn database rest = do t ← start_transaction database; defer (deferred_rollback t) (rest t)

  -- `PGResourceFunc` and `PGResourceExistsFunc`: the provider's own connection comes first.
  unfoldable pub pg_resource_func : M D A → M D A
  pg_resource_func fn = do
    env ← ask
    log ← history
    of_result (env.connect_result log env.client_database)
    fn
