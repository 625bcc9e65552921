-- ===== src/Helpers/Transactions/Commits.antt =====
-- Which programs commit, and how often.
pub mod Rules
use mathlib.Core.List.{◌++◌}
use terraform_provider_postg.Base.{
  All, Option, Option-cases, String, [], ap, arith, inl, inr, none, refl, some, suc, ℕ, ◌+◌, ◌∙◌,
  ◌∷◌, ◌≡◌, ◌≤◌,
}
use terraform_provider_postg.Effect.{
  Env, Error, Log, M, Result, Session, ask, begin, commit, continue, current, err, exec, fail,
  modify, ok, or_fail, panic, pure, query, rollback, wrap, wrap_result, ◌>>=◌,
}
use terraform_provider_postg.Effect.Emits.{Emits}
use terraform_provider_postg.Helpers.Transactions.{begun, commit_txn, with_txn}
use terraform_provider_postg.Helpers.Transactions.Run.{NotStarted, started, with_txn_run}
use terraform_provider_postg.Helpers.Transactions.Statements.{OnTxn}

-- The commits that went through.
abbrev pub commits : Log → ℕ
commits [] = 0
commits (commit _ none ∷ log) = suc (commits log)
commits (commit _ (some _) ∷ log) = commits log
commits (begin _ _ ∷ log) = commits log
commits (exec _ _ _ _ ∷ log) = commits log
commits (query _ _ _ ∷ log) = commits log
commits (rollback _ ∷ log) = commits log

-- 1 for a success, 0 for an error or a panic
abbrev pub ones {ℓ} : {A : Type ℓ} → Result A → ℕ
ones (ok a) = 1
ones (err e) = 0
ones panic = 0

at_most_one {ℓ} : {A : Type ℓ} (r : Result A) → ones r ≤ 1
at_most_one (ok a) = omega arith
at_most_one (err e) = omega arith
at_most_one panic = omega arith

commits-append : (t : ℕ) (new log : Log) → All (OnTxn t) new → commits (new ++ log) ≡ commits log
commits-append t [] log h = refl
commits-append t (begin _ _ ∷ new) log (h, hs) = absurd h
commits-append t (exec _ _ _ _ ∷ new) log (h, hs) = commits-append t new log hs
commits-append t (query _ _ _ ∷ new) log (h, hs) = commits-append t new log hs
commits-append t (commit _ _ ∷ new) log (h, hs) = absurd h
commits-append t (rollback _ ∷ new) log (h, hs) = absurd h

ones-wrap_result : {A : Type 0} (msg : String) (r : Result A) → ones (wrap_result msg r) ≡ ones r
ones-wrap_result msg (ok a) = refl
ones-wrap_result msg (err e) = refl
ones-wrap_result msg panic = refl

not_started : {D : Type 0} (s s' : Session D) → NotStarted s s' → commits s'.log ≡ commits s.log
not_started s s' (inl e) = ap commits e
not_started s s' (inr (database, x, e)) = ap commits e

module _ {D A : Type 0} where
  -- It commits nothing.
  pub record Quiet (m : M D A) : Type 0 where
    pub at : (env : Env) (s : Session D) → commits (m env s).1.log ≡ commits s.log

  -- It succeeds exactly if it commits, once.
  pub record Decides (m : M D A) : Type 0 where
    pub at :
        (env : Env) (s : Session D) → commits (m env s).1.log ≡ ones (m env s).0 + commits s.log

  -- It commits at most once, and once if it succeeds.
  pub record CommitsOnce (m : M D A) : Type 0 where
    pub at :
        (env : Env) (s : Session D)
        → (ones (m env s).0 + commits s.log ≤ commits (m env s).1.log)
          × (commits (m env s).1.log ≤ 1 + commits s.log)

  pub Quiet-OnTxn : (t : ℕ) (m : M D A) → Emits (OnTxn t) m → Quiet m
  Quiet-OnTxn t m h = record {
    at = λ env s. let (new, e, on) = h.at env s in ap commits e ∙ commits-append t new s.log on;
  }

  pub Quiet-pure : (a : A) → Quiet (pure {D = D} a)
  unfolding pure
  Quiet-pure a = record { at = λ env s. refl }

  pub Quiet-fail : (e : Error) → Quiet (fail {D = D} {A = A} e)
  unfolding fail
  Quiet-fail e = record { at = λ env s. refl }

  pub Quiet-wrap : (msg : String) (m : M D A) → Quiet m → Quiet (wrap msg m)
  unfolding wrap
  Quiet-wrap msg m h = record { at = h.at }

  pub Decides-wrap : (msg : String) (m : M D A) → Decides m → Decides (wrap msg m)
  unfolding wrap
  Decides-wrap msg m h = record {
    at = λ env s. omega (arith, h.at env s, ones-wrap_result msg (m env s).0);
  }

  pub CommitsOnce-of_Decides : (m : M D A) → Decides m → CommitsOnce m
  CommitsOnce-of_Decides m h = record {
    at = λ env s. (omega (arith, h.at env s), omega (arith, h.at env s, at_most_one (m env s).0));
  }

  pub Quiet-with_txn :
      (database : String) (rest : ℕ → M D A)
      → ((t : ℕ) → Quiet (rest t))
      → Quiet (with_txn database rest)
  Quiet-with_txn database rest h = record {
    at = λ env s.
        with_txn_run (λ o. commits o.1.log ≡ commits s.log) env database rest s
          (λ e s' n. not_started s s' n) refl ((h (begun s.log)).at env (started env database s));
  }

  pub Decides-with_txn :
      (database : String) (rest : ℕ → M D A)
      → ((t : ℕ) → Decides (rest t))
      → Decides (with_txn database rest)
  Decides-with_txn database rest h = record {
    at = λ env s.
        with_txn_run (λ o. commits o.1.log ≡ ones o.0 + commits s.log) env database rest s
          (λ e s' n. omega (arith, not_started s s' n)) (omega arith)
          ((h (begun s.log)).at env (started env database s));
  }

  pub CommitsOnce-with_txn :
      (database : String) (rest : ℕ → M D A)
      → ((t : ℕ) → CommitsOnce (rest t))
      → CommitsOnce (with_txn database rest)
  CommitsOnce-with_txn database rest h = record {
    at = λ env s.
        with_txn_run
          (λ o.
            (ones o.0 + commits s.log ≤ commits o.1.log) × (commits o.1.log ≤ 1 + commits s.log))
          env database rest s
          (λ e s' n. (omega (arith, not_started s s' n), omega (arith, not_started s s' n)))
          (omega arith, omega arith) ((h (begun s.log)).at env (started env database s));
  }

module _ {D : Type 0} where
  pub Quiet-ask : Quiet (ask {D = D})
  unfolding ask
  Quiet-ask = record { at = λ env s. refl }

  pub Quiet-current : Quiet (current {D = D})
  unfolding current
  Quiet-current = record { at = λ env s. refl }

  pub Quiet-modify : (f : D → D) → Quiet (modify f)
  unfolding modify
  Quiet-modify f = record { at = λ env s. refl }

  pub Quiet-or_fail : (o : Option Error) → Quiet (or_fail {D = D} o)
  unfolding or_fail
  Quiet-or_fail none = Quiet-pure tt
  Quiet-or_fail (some e) = Quiet-fail e

  pub Decides-commit_txn : (t : ℕ) → Decides (commit_txn {D = D} t)
  unfolding commit_txn or_fail ◌>>=◌
  Decides-commit_txn t = record {
    at = λ env s. elim (Option-cases (env.commit_error s.log t)) [
      | inl e ↦ rw e (omega arith)
      | inr (x, e) ↦ rw e (omega arith)
    ];
  }

module _ {D A B : Type 0} where
  Quiet-continue :
      (r : Result A) (f : A → M D B) (env : Env) (s : Session D)
      → ((a : A) → Quiet (f a))
      → commits (continue r f env s).1.log ≡ commits s.log
  Quiet-continue (ok a) f env s k = (k a).at env s
  Quiet-continue (err e) f env s k = refl
  Quiet-continue panic f env s k = refl

  pub Quiet-bind : (m : M D A) (f : A → M D B) → Quiet m → ((a : A) → Quiet (f a)) → Quiet (m >>= f)
  unfolding ◌>>=◌
  Quiet-bind m f h k = record {
    at = λ env s. let (r, s') = m env s in Quiet-continue r f env s' k ∙ h.at env s;
  }

  Decides-continue :
      (r : Result A) (f : A → M D B) (env : Env) (s : Session D)
      → ((a : A) → Decides (f a))
      → commits (continue r f env s).1.log ≡ ones (continue r f env s).0 + commits s.log
  Decides-continue (ok a) f env s k = (k a).at env s
  Decides-continue (err e) f env s k = omega arith
  Decides-continue panic f env s k = omega arith

  -- Everything before the commit is quiet.
  pub Decides-bind :
      (m : M D A) (f : A → M D B) → Quiet m → ((a : A) → Decides (f a)) → Decides (m >>= f)
  unfolding ◌>>=◌
  Decides-bind m f h k = record {
    at = λ env s. let (r, s') = m env s in omega (arith, Decides-continue r f env s' k, h.at env s);
  }

  CommitsOnce-continue :
      (r : Result A) (f : A → M D B) (env : Env) (s : Session D)
      → ((a : A) → CommitsOnce (f a))
      → (ones (continue r f env s).0 + commits s.log ≤ commits (continue r f env s).1.log)
        × (commits (continue r f env s).1.log ≤ 1 + commits s.log)
  CommitsOnce-continue (ok a) f env s k = (k a).at env s
  CommitsOnce-continue (err e) f env s k = (omega arith, omega arith)
  CommitsOnce-continue panic f env s k = (omega arith, omega arith)

  pub CommitsOnce-bind :
      (m : M D A) (f : A → M D B) → Quiet m → ((a : A) → CommitsOnce (f a)) → CommitsOnce (m >>= f)
  unfolding ◌>>=◌
  CommitsOnce-bind m f h k = record {
    at = λ env s.
        let (r, s') = m env s in
        let c = CommitsOnce-continue r f env s' k in
        (omega (arith, c.0, h.at env s), omega (arith, c.1, h.at env s));
  }

  CommitsOnce-then_continue :
      (r : Result A) (f : A → M D B) (env : Env) (s : Session D) (k : ℕ)
      → ((a : A) → Quiet (f a))
      → (ones r + k ≤ commits s.log) × (commits s.log ≤ 1 + k)
      → (ones (continue r f env s).0 + k ≤ commits (continue r f env s).1.log)
        × (commits (continue r f env s).1.log ≤ 1 + k)
  CommitsOnce-then_continue (ok a) f env s k q (h, h') =
      (omega (arith, (q a).at env s, at_most_one (f a env s).0), omega (arith, (q a).at env s))
  CommitsOnce-then_continue (err e) f env s k q (h, h') = (omega arith, omega arith)
  CommitsOnce-then_continue panic f env s k q (h, h') = (omega arith, omega arith)

  -- Everything after the commit is quiet.
  pub CommitsOnce-then :
      (m : M D A) (f : A → M D B) → CommitsOnce m → ((a : A) → Quiet (f a)) → CommitsOnce (m >>= f)
  unfolding ◌>>=◌
  CommitsOnce-then m f h k = record {
    at = λ env s.
        let (r, s') = m env s in
        CommitsOnce-then_continue r f env s' (commits s.log) k (h.at env s);
  }
