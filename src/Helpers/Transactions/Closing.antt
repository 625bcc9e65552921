-- ===== src/Helpers/Transactions/Closing.antt =====
-- Which transactions a program leaves open.
use mathlib.Core.List.{◌++◌}
use terraform_provider_postg.Base.{
  All, Bool, Option, Option-cases, String, [], ap, arith, false, inl, inr, none, not, refl, some, ℕ,
  ◌&&◌, ◌=ℕ◌, ◌||◌, ◌∙◌, ◌∷◌, ◌≡◌, ◌≤◌,
}
use terraform_provider_postg.Effect.{
  Env, Error, Log, M, Result, Session, ask, begin, commit, continue, current, err, exec, fail,
  modify, ok, or_fail, panic, pure, query, rollback, wrap, ◌>>=◌,
}
use terraform_provider_postg.Effect.Emits.{Emits}
use terraform_provider_postg.Helpers.Transactions.{begun, commit_txn, with_txn}
use terraform_provider_postg.Helpers.Transactions.Run.{
  NotStarted, rolled_back, started, with_txn_run,
}
use terraform_provider_postg.Helpers.Transactions.Statements.{OnTxn}

-- Whether the n-th transaction of the log has begun and is neither committed nor rolled back. A
-- commit that fails ends the transaction too.
abbrev pub is_open : ℕ → Log → Bool
is_open t [] = false
is_open t (begin _ none ∷ log) = t =ℕ begun log || is_open t log
is_open t (begin _ (some _) ∷ log) = is_open t log
is_open t (commit u _ ∷ log) = not (t =ℕ u) && is_open t log
is_open t (rollback u ∷ log) = not (t =ℕ u) && is_open t log
is_open t (exec _ _ _ _ ∷ log) = is_open t log
is_open t (query _ _ _ ∷ log) = is_open t log

-- A transaction that has not begun is not open.
pub is_open_later : (t : ℕ) (log : Log) → begun log ≤ t → is_open t log ≡ false
is_open_later t [] h = refl
is_open_later t (begin _ none ∷ log) h = ground (arith, is_open_later t log)
is_open_later t (begin _ (some _) ∷ log) h = is_open_later t log (omega arith)
is_open_later t (commit u _ ∷ log) h = ground (arith, is_open_later t log h)
is_open_later t (rollback u ∷ log) h = ground (arith, is_open_later t log h)
is_open_later t (exec _ _ _ _ ∷ log) h = is_open_later t log h
is_open_later t (query _ _ _ ∷ log) h = is_open_later t log h

open-append : (t u : ℕ) (new log : Log) → All (OnTxn t) new → is_open u (new ++ log) ≡ is_open u log
open-append t u [] log h = refl
open-append t u (begin _ _ ∷ new) log (h, hs) = absurd h
open-append t u (exec _ _ _ _ ∷ new) log (h, hs) = open-append t u new log hs
open-append t u (query _ _ _ ∷ new) log (h, hs) = open-append t u new log hs
open-append t u (commit _ _ ∷ new) log (h, hs) = absurd h
open-append t u (rollback _ ∷ new) log (h, hs) = absurd h

not_started :
    {D : Type 0} (u : ℕ) (s s' : Session D) → NotStarted s s' → is_open u s'.log ≡ is_open u s.log
not_started u s s' (inl e) = ap (is_open u) e
not_started u s s' (inr (database, x, e)) = ap (is_open u) e

module _ {D A : Type 0} where
  -- However it ends, every transaction that it began is over, and the others are as they were.
  pub record Closes (m : M D A) : Type 0 where
    pub at : (env : Env) (s : Session D) (u : ℕ) → is_open u (m env s).1.log ≡ is_open u s.log

  -- The same, but for transaction `t`, which it may end.
  pub record Leaves (t : ℕ) (m : M D A) : Type 0 where
    pub at :
        (env : Env) (s : Session D) (u : ℕ)
        → (u =ℕ t) ≡ false
        → is_open u (m env s).1.log ≡ is_open u s.log

  pub Closes-OnTxn : (t : ℕ) (m : M D A) → Emits (OnTxn t) m → Closes m
  Closes-OnTxn t m h = record {
    at =
        λ env s u. let (new, e, on) = h.at env s in ap (is_open u) e ∙ open-append t u new s.log on;
  }

  pub Leaves-of_Closes : (t : ℕ) (m : M D A) → Closes m → Leaves t m
  Leaves-of_Closes t m h = record { at = λ env s u _. h.at env s u }

  pub Leaves-OnTxn : (t u : ℕ) (m : M D A) → Emits (OnTxn u) m → Leaves t m
  Leaves-OnTxn t u m h = Leaves-of_Closes t m (Closes-OnTxn u m h)

  pub Leaves-wrap : (t : ℕ) (msg : String) (m : M D A) → Leaves t m → Leaves t (wrap msg m)
  unfolding wrap
  Leaves-wrap t msg m h = record { at = h.at }

  pub Closes-pure : (a : A) → Closes (pure {D = D} a)
  unfolding pure
  Closes-pure a = record { at = λ env s u. refl }

  pub Closes-fail : (e : Error) → Closes (fail {D = D} {A = A} e)
  unfolding fail
  Closes-fail e = record { at = λ env s u. refl }

  closed :
      (s : Session D) (database : String) (u : ℕ) (env : Env) (o : Result A × Session D)
      → ((u =ℕ begun s.log) ≡ false → is_open u o.1.log ≡ is_open u (started env database s).log)
      → is_open u (rolled_back (begun s.log) o).1.log ≡ is_open u s.log
  closed s database u env o h = ground (arith, is_open_later u s.log)

  pub Closes-with_txn :
      (database : String) (rest : ℕ → M D A)
      → ((t : ℕ) → Leaves t (rest t))
      → Closes (with_txn database rest)
  Closes-with_txn database rest h = record {
    at = λ env s u.
        with_txn_run (λ o. is_open u o.1.log ≡ is_open u s.log) env database rest s
          (λ e s' n. not_started u s s' n) refl
          (closed s database u env (rest (begun s.log) env (started env database s))
            ((h (begun s.log)).at env (started env database s) u));
  }

module _ {D : Type 0} where
  pub Closes-ask : Closes (ask {D = D})
  unfolding ask
  Closes-ask = record { at = λ env s u. refl }

  pub Closes-current : Closes (current {D = D})
  unfolding current
  Closes-current = record { at = λ env s u. refl }

  pub Closes-modify : (f : D → D) → Closes (modify f)
  unfolding modify
  Closes-modify f = record { at = λ env s u. refl }

  pub Closes-or_fail : (o : Option Error) → Closes (or_fail {D = D} o)
  unfolding or_fail
  Closes-or_fail none = Closes-pure tt
  Closes-or_fail (some e) = Closes-fail e

  pub Leaves-commit_txn : (t : ℕ) → Leaves t (commit_txn {D = D} t)
  unfolding commit_txn or_fail ◌>>=◌
  Leaves-commit_txn t = record {
    at = λ env s u ne. elim (Option-cases (env.commit_error s.log t)) [
      | inl e ↦ rw e (rw ne refl)
      | inr (x, e) ↦ rw e (rw ne refl)
    ];
  }

module _ {D A B : Type 0} where
  Closes-continue :
      (r : Result A) (f : A → M D B) (env : Env) (s : Session D) (u : ℕ)
      → ((a : A) → Closes (f a))
      → is_open u (continue r f env s).1.log ≡ is_open u s.log
  Closes-continue (ok a) f env s u k = (k a).at env s u
  Closes-continue (err e) f env s u k = refl
  Closes-continue panic f env s u k = refl

  pub Closes-bind :
      (m : M D A) (f : A → M D B) → Closes m → ((a : A) → Closes (f a)) → Closes (m >>= f)
  unfolding ◌>>=◌
  Closes-bind m f h k = record {
    at = λ env s u. let (r, s') = m env s in Closes-continue r f env s' u k ∙ h.at env s u;
  }

  Leaves-continue :
      (t : ℕ) (r : Result A) (f : A → M D B) (env : Env) (s : Session D) (u : ℕ)
      → (u =ℕ t) ≡ false
      → ((a : A) → Leaves t (f a))
      → is_open u (continue r f env s).1.log ≡ is_open u s.log
  Leaves-continue t (ok a) f env s u ne k = (k a).at env s u ne
  Leaves-continue t (err e) f env s u ne k = refl
  Leaves-continue t panic f env s u ne k = refl

  pub Leaves-bind :
      (t : ℕ) (m : M D A) (f : A → M D B)
      → Leaves t m
      → ((a : A) → Leaves t (f a))
      → Leaves t (m >>= f)
  unfolding ◌>>=◌
  Leaves-bind t m f h k = record {
    at = λ env s u ne.
        let (r, s') = m env s in Leaves-continue t r f env s' u ne k ∙ h.at env s u ne;
  }
