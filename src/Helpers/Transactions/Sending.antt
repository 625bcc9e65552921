-- ===== src/Helpers/Transactions/Sending.antt =====
-- Programs that only send statements and queries, on the pool or in a transaction: they neither
-- begin nor end one.
use mathlib.Core.List.{◌++◌}
use terraform_provider_postg.Base.{
  All, Bool, List, String, [], ap, false, if◌then◌else◌, refl, true, ℕ, ◌∙◌, ◌∷◌, ◌≡◌,
}
use terraform_provider_postg.Effect.{
  Arg, Cell, Env, Error, Event, Handle, Log, M, Scan, ask_server, begin, commit, crash, exec,
  exec_args, query, rollback,
}
use terraform_provider_postg.Effect.Emits.{
  Emits, Emits-ask, Emits-ask_server, Emits-bind, Emits-crash, Emits-current, Emits-exec_args,
  Emits-fail, Emits-if, Emits-modify, Emits-pure, Emits-wrap,
}
use terraform_provider_postg.Effect.Reading.{collect, found_or, row_or}
use terraform_provider_postg.Helpers.Transactions.Closing.{
  Leaves, Closes, Closes-ask, Closes-bind, Closes-current, Closes-fail, Closes-modify,
  Closes-or_fail, Closes-pure, Closes-with_txn, Leaves-bind, Leaves-commit_txn, Leaves-of_Closes,
  Leaves-wrap, is_open,
}
use terraform_provider_postg.Helpers.Transactions.Commits.{Quiet, commits}
use terraform_provider_postg.Helpers.Transactions.Statements.{
  OnTxn, collect-OnTxn, found_or-OnTxn, row_or-OnTxn,
}

abbrev pub IsStatement : Event → Type 0
IsStatement (begin _ _) = ⊥
IsStatement (exec _ _ _ _) = Unit {0}
IsStatement (query _ _ _) = Unit {0}
IsStatement (commit _ _) = ⊥
IsStatement (rollback _) = ⊥

-- The events of a program are statements and queries.
abbrev pub Sends : {D A : Type 0} → M D A → Type 0
Sends m = Emits IsStatement m

on_txn : (t : ℕ) (new : Log) → All (OnTxn t) new → All IsStatement new
on_txn t [] h = tt
on_txn t (begin _ _ ∷ new) (h, hs) = absurd h
on_txn t (exec _ _ _ _ ∷ new) (h, hs) = (tt, on_txn t new hs)
on_txn t (query _ _ _ ∷ new) (h, hs) = (tt, on_txn t new hs)
on_txn t (commit _ _ ∷ new) (h, hs) = absurd h
on_txn t (rollback _ ∷ new) (h, hs) = absurd h

commits-append : (new log : Log) → All IsStatement new → commits (new ++ log) ≡ commits log
commits-append [] log h = refl
commits-append (begin _ _ ∷ new) log (h, hs) = absurd h
commits-append (exec _ _ _ _ ∷ new) log (h, hs) = commits-append new log hs
commits-append (query _ _ _ ∷ new) log (h, hs) = commits-append new log hs
commits-append (commit _ _ ∷ new) log (h, hs) = absurd h
commits-append (rollback _ ∷ new) log (h, hs) = absurd h

open-append : (u : ℕ) (new log : Log) → All IsStatement new → is_open u (new ++ log) ≡ is_open u log
open-append u [] log h = refl
open-append u (begin _ _ ∷ new) log (h, hs) = absurd h
open-append u (exec _ _ _ _ ∷ new) log (h, hs) = open-append u new log hs
open-append u (query _ _ _ ∷ new) log (h, hs) = open-append u new log hs
open-append u (commit _ _ ∷ new) log (h, hs) = absurd h
open-append u (rollback _ ∷ new) log (h, hs) = absurd h

module _ {D A : Type 0} where
  pub Sends-OnTxn : (t : ℕ) (m : M D A) → Emits (OnTxn t) m → Sends m
  Sends-OnTxn t m h = record {
    at = λ env s. let (new, e, on) = h.at env s in (new, e, on_txn t new on);
  }

  pub Sends-ask_server :
      (answer : Env → Log → Handle → String → List Arg → A) (h : Handle) (sql : String)
      (args : List Arg)
      → Sends (ask_server {D = D} answer h sql args)
  Sends-ask_server answer h sql args = Emits-ask_server answer h sql args tt

  pub Quiet-Sends : (m : M D A) → Sends m → Quiet m
  Quiet-Sends m h = record {
    at = λ env s. let (new, e, on) = h.at env s in ap commits e ∙ commits-append new s.log on;
  }

  pub Closes-Sends : (m : M D A) → Sends m → Closes m
  Closes-Sends m h = record {
    at = λ env s u. let (new, e, on) = h.at env s in ap (is_open u) e ∙ open-append u new s.log on;
  }

  pub Closes-if : (b : Bool) (m n : M D A) → Closes m → Closes n → Closes (if b then m else n)
  Closes-if true m n h k = h
  Closes-if false m n h k = k

  pub Leaves-if :
      (t : ℕ) (b : Bool) (m n : M D A) → Leaves t m → Leaves t n → Leaves t (if b then m else n)
  Leaves-if t true m n h k = h
  Leaves-if t false m n h k = k

  pub Closes-crash : Closes (crash {D = D} {A = A})
  unfolding crash
  Closes-crash = record { at = λ env s u. refl }

module _ {D : Type 0} where
  pub Sends-exec_args :
      (h : Handle) (sql : String) (args : List Arg) → Sends (exec_args {D = D} h sql args)
  Sends-exec_args h sql args = Emits-exec_args h sql args (λ o. tt)

  pub found_or-Sends : {A : Type 0} (msg : String) (o : Scan A) → Sends (found_or {D = D} msg o)
  found_or-Sends msg o = Sends-OnTxn 0 _ (found_or-OnTxn 0 msg o)

  pub row_or-Sends :
      {A : Type 0} (missing : Error) (msg : String) (o : Scan A)
      → Sends (row_or {D = D} missing msg o)
  row_or-Sends missing msg o = Sends-OnTxn 0 _ (row_or-OnTxn 0 missing msg o)

  pub collect-Sends :
      {A : Type 0} (msg : String) (cells : List (Cell A)) → Sends (collect {D = D} msg cells)
  collect-Sends msg cells = Sends-OnTxn 0 _ (collect-OnTxn 0 msg cells)

pub ruleset sends_rules = (
  Emits-pure, Emits-fail, Emits-crash, Emits-if, Emits-wrap, Emits-ask, Emits-current, Emits-modify,
  Emits-bind, Sends-exec_args, Sends-ask_server, found_or-Sends, row_or-Sends, collect-Sends,
)

pub ruleset closing_rules = (
  Closes-pure, Closes-fail, Closes-crash, Closes-if, Closes-ask, Closes-current, Closes-modify,
  Closes-or_fail, Closes-bind, Closes-with_txn, Leaves-bind, Leaves-if, Leaves-wrap,
  Leaves-commit_txn, Leaves-of_Closes,
)
