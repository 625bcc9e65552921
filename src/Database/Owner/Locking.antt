-- ===== src/Database/Owner/Locking.antt =====
-- How the lock of postgresql/resource_postgresql_database.go ends its transaction.
use Prim.Native.String.{◌++◌}
use terraform_provider_postg.Base.{
  Option-cases, String, [], arith, inl, inr, none, refl, some, true, ℕ, ◌∷◌, ◌≡◌,
}
use terraform_provider_postg.Database.Owner.{lock_role, rollback_lock, with_role_locked}
use terraform_provider_postg.Effect.{
  Env, Error, Log, M, Result, Session, begin, defer, err, exec, exec_args, ok, attempt, of_result,
  or_fail, str, txn, wrap, wrapped, ◌>>=◌,
}
use terraform_provider_postg.Helpers.Catalog.{pg_lock_role}
use terraform_provider_postg.Helpers.Transactions.{
  begun, deferred_rollback, start_transaction, target_database,
}
use terraform_provider_postg.Helpers.Transactions.Closing.{Closes, is_open_later, is_open}
use terraform_provider_postg.Helpers.Transactions.Run.{connect-cases, rolled_back}

abbrev pub lock_query : String
lock_query = "SELECT pg_advisory_xact_lock(oid::bigint) FROM pg_roles WHERE rolname = $1"

abbrev pub lock_members_query : String
lock_members_query =
    "SELECT pg_advisory_xact_lock(member::bigint) FROM pg_auth_members JOIN pg_roles ON roleid = pg_roles.oid WHERE rolname = $1"

-- The server grants both locks on a role, whenever it is asked.
pub record Locks (env : Env) (role : String) : Type 0 where
  pub own : (log : Log) (t : ℕ) → env.exec_error log (txn t) lock_query (str role ∷ []) ≡ none
  pub members :
      (log : Log) (t : ℕ) → env.exec_error log (txn t) lock_members_query (str role ∷ []) ≡ none

module _ {D A : Type 0} (role : String) (rest : M D A) (env : Env) (s : Session D) where
  -- If the connection and the transaction of the lock succeed and the lock itself is refused, then
  -- the function fails with that error, and the transaction is left open.
  pub with_role_locked-leaks :
      (e : Error)
      → env.connect_result s.log (target_database env "") ≡ ok tt
      → env.begin_error s.log (target_database env "") ≡ none
      → env.exec_error
          (begin (target_database env "") none ∷ s.log)
          (txn (begun s.log))
          lock_query
          (str role ∷ [])
        ≡ some e
      → ((with_role_locked role rest env s).0
          ≡ err (wrapped ("could not get advisory lock for role " ++ role) e))
        × (is_open (begun s.log) (with_role_locked role rest env s).1.log ≡ true)
  unfolding with_role_locked lock_role rollback_lock attempt of_result start_transaction
      pg_lock_role exec_args wrap or_fail ◌>>=◌
  with_role_locked-leaks e p q r = rw (p, q, r) (refl, ground arith)

  opened : Session D
  opened = record s {
    log =
        exec (txn (begun s.log)) lock_members_query (str role ∷ []) none
        ∷ exec (txn (begun s.log)) lock_query (str role ∷ []) none
        ∷ begin (target_database env "") none
        ∷ s.log;
  }

  rolled_back_closed :
      (u : ℕ) (o : Result A × Session D)
      → is_open u o.1.log ≡ is_open u opened.log
      → is_open u (rolled_back (begun s.log) o).1.log ≡ is_open u s.log
  unfolding opened
  rolled_back_closed u o h = ground (arith, h, is_open_later u s.log)

  -- If the server grants the locks on the connected role, and what runs under them ends every
  -- transaction that it began, then with the lock's own transaction none is left open, however it
  -- ends.
  pub with_role_locked-Closes :
      (u : ℕ)
      → Locks env role
      → Closes rest
      → is_open u (with_role_locked role rest env s).1.log ≡ is_open u s.log
  unfolding with_role_locked lock_role rollback_lock attempt of_result start_transaction
      pg_lock_role exec_args wrap or_fail defer deferred_rollback opened ◌>>=◌
  with_role_locked-Closes u locks h =
      elim (connect-cases (env.connect_result s.log (target_database env ""))) [
        | inr (inl (e, p)) ↦ rw p refl
        | inr (inr p) ↦ rw p refl
        | inl p ↦ elim (Option-cases (env.begin_error s.log (target_database env ""))) [
          | inr (e, q) ↦ rw (p, q) refl
          | inl q ↦
              rw (p, q, locks.own _ (begun s.log), locks.members _ (begun s.log))
                (rolled_back_closed u (rest env opened) (h.at env opened u))
        ]
      ]
