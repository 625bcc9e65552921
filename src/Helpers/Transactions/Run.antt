-- ===== src/Helpers/Transactions/Run.antt =====
-- How a transaction with a deferred rollback runs: it does not start, or its body runs between
-- `begin` and `rollback`.
use terraform_provider_postg.Base.{
  Option-cases, String, inl, inr, none, refl, some, ℕ, ◌∷◌, ◌≡◌, ◌⊎◌,
}
use terraform_provider_postg.Effect.{
  of_result, ok, panic, or_fail, Env, Error, M, Result, Session, begin, defer, err, rollback, wrap,
  wrapped, ◌>>=◌,
}
use terraform_provider_postg.Helpers.Transactions.{
  begun, start_transaction, target_database, with_txn,
}

abbrev pub started : {D : Type 0} → Env → String → Session D → Session D
started env database s = record s { log = begin (target_database env database) none ∷ s.log }

-- What the deferred rollback makes of a run of the body.
abbrev pub rolled_back : {D A : Type 0} → ℕ → Result A × Session D → Result A × Session D
rolled_back t o = (o.0, record (o.1) { log = rollback t ∷ o.1.log })

-- The log of a transaction that did not start.
abbrev pub NotStarted : {D : Type 0} → Session D → Session D → Type 0
NotStarted s s' =
    (s'.log ≡ s.log)
    ⊎ ((database : String) × (e : Error) × (s'.log ≡ begin database (some e) ∷ s.log))

pub connect-cases :
    (r : Result (Unit {0})) → (r ≡ ok tt) ⊎ (((e : Error) × (r ≡ err e)) ⊎ (r ≡ panic))
connect-cases (ok tt) = inl refl
connect-cases (err e) = inr (inl (e, refl))
connect-cases panic = inr (inr refl)

module _ {D A : Type 0} (P : Result A × Session D → Type 0) (env : Env) (database : String)
    (rest : ℕ → M D A) (s : Session D) where
  pub with_txn_run :
      ((e : Error) (s' : Session D) → NotStarted s s' → P (err e, s'))
      → P (panic, s)
      → P (rolled_back (begun s.log) (rest (begun s.log) env (started env database s)))
      → P (with_txn database rest env s)
  unfolding with_txn start_transaction defer wrap ◌>>=◌ or_fail of_result
  with_txn_run stopped crashed runs =
      elim (connect-cases (env.connect_result s.log (target_database env database))) [
        | inr (inl (e, p)) ↦ rw p (stopped e s (inl refl))
        | inr (inr p) ↦ rw p crashed
        | inl p ↦ elim (Option-cases (env.begin_error s.log (target_database env database))) [
          | inr (e, q) ↦
              rw (p, q) (stopped (wrapped "could not start transaction" e) _ (inr (_, e, refl)))
          | inl q ↦ rw (p, q) runs
        ]
      ]
