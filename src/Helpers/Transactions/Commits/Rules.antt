-- ===== src/Helpers/Transactions/Commits/Rules.antt =====
-- The rules that decide how often a handler commits, for `search`.
use terraform_provider_postg.Base.{
  ℕ, Bool, List, Option-cases, String, false, if◌then◌else◌, inl, inr, refl, true, ◌+◌, ◌≡◌,
}
use terraform_provider_postg.Effect.{
  wrap, Arg, Env, Handle, Log, M, Result, Session, ask, ask_server, continue, crash, emit, err,
  exec_args, fail, history, modify, ok, or_fail, panic, pure, ◌>>=◌, ◌>>◌,
}
use terraform_provider_postg.Helpers.Transactions.Commits.{
  CommitsOnce-of_Decides, commit_txn, CommitsOnce, Decides, CommitsOnce-bind, CommitsOnce-then,
  CommitsOnce-with_txn, Decides-bind, Decides-commit_txn, Decides-with_txn, Decides-wrap, Quiet,
  Quiet-ask, Quiet-bind, Quiet-current, Quiet-fail, Quiet-modify, Quiet-or_fail, Quiet-pure,
  Quiet-with_txn, Quiet-wrap, commits, ones,
}

module _ {D A : Type 0} where
  pub Quiet-if : (b : Bool) (m n : M D A) → Quiet m → Quiet n → Quiet (if b then m else n)
  Quiet-if true m n h k = h
  Quiet-if false m n h k = k

  pub Quiet-crash : Quiet (crash {D = D} {A = A})
  unfolding crash
  Quiet-crash = record { at = λ env s. refl }

  pub Quiet-ask_server :
      (answer : Env → Log → Handle → String → List Arg → A) (h : Handle) (sql : String)
      (args : List Arg)
      → Quiet (ask_server {D = D} answer h sql args)
  unfolding ask_server ask history emit pure ◌>>=◌
  Quiet-ask_server answer h sql args = record { at = λ env s. refl }

module _ {D : Type 0} where
  pub Quiet-exec_args :
      (h : Handle) (sql : String) (args : List Arg) → Quiet (exec_args {D = D} h sql args)
  unfolding exec_args ask history emit or_fail fail pure ◌>>=◌
  Quiet-exec_args h sql args = record {
    at = λ env s. elim (Option-cases (env.exec_error s.log h sql args)) [
      | inl e ↦ rw e refl
      | inr (x, e) ↦ rw e refl
    ];
  }

  modified :
      (o : Result (Unit {0}) × Session D) (s : Session D) (f : D → D) (env : Env)
      → commits o.1.log ≡ ones o.0 + commits s.log
      → commits (continue o.0 (λ _. modify f) env o.1).1.log
        ≡ ones (continue o.0 (λ _. modify f) env o.1).0 + commits s.log
  unfolding modify
  modified (ok a, s') s f env h = h
  modified (err e, s') s f env h = h
  modified (panic, s') s f env h = h

  pub Decides-modify : (m : M D (Unit {0})) (f : D → D) → Decides m → Decides (m >> modify f)
  unfolding modify ◌>>=◌
  Decides-modify m f h = record { at = λ env s. modified (m env s) s f env (h.at env s) }

  pub CommitsOnce-commit_txn : (t : ℕ) → CommitsOnce (commit_txn {D = D} t)
  CommitsOnce-commit_txn t = CommitsOnce-of_Decides (commit_txn t) (Decides-commit_txn t)

  pub CommitsOnce-wrap : (msg : String) (t : ℕ) → CommitsOnce (wrap msg (commit_txn {D = D} t))
  CommitsOnce-wrap msg t =
      CommitsOnce-of_Decides _ (Decides-wrap msg (commit_txn t) (Decides-commit_txn t))

pub ruleset quiet_rules = (
  Quiet-pure, Quiet-fail, Quiet-crash, Quiet-if, Quiet-wrap, Quiet-ask, Quiet-current, Quiet-modify,
  Quiet-or_fail, Quiet-bind, Quiet-with_txn, Quiet-ask_server, Quiet-exec_args,
)

pub ruleset commit_rules =
    (quiet_rules, Decides-commit_txn, Decides-wrap, Decides-bind, Decides-with_txn, Decides-modify)

pub ruleset once_rules = (
  quiet_rules, CommitsOnce-commit_txn, CommitsOnce-wrap, CommitsOnce-bind, CommitsOnce-with_txn,
  CommitsOnce-then,
)
