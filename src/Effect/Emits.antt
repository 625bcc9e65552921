-- ===== src/Effect/Emits.antt =====
-- Which events a program sends, one rule for each way to build a program.
use mathlib.Core.List.{◌++◌, append_assoc}
use terraform_provider_postg.Base.{
  String, Option, none, some, List, String, Bool, true, false, Option, none, some, List, [], ◌∷◌,
  ◌≡◌, refl, sym, ◌∙◌, ap, All, if◌then◌else◌,
}
use terraform_provider_postg.Effect.{
  Handle, Arg, exec, query, or_fail, exec_args, ask_server, Error, Result, ok, err, panic, Handle,
  Arg, Event, exec, query, Log, Env, Session, M, pure, fail, crash, ask, current, modify, emit,
  history, continue, ◌>>=◌, defer, or_fail, exec_args, ask_server, wrap,
}

-- All that `m` adds to the log satisfies `P`, however `m` ends.
pub record Emits {D A : Type 0} (P : Event → Type 0) (m : M D A) : Type 0 where
  pub at : (env : Env) (s : Session D) → (new : Log) × ((m env s).1.log ≡ new ++ s.log) × All P new

All-append : (P : Event → Type 0) (xs ys : Log) → All P xs → All P ys → All P (xs ++ ys)
All-append P [] ys hx hy = hy
All-append P (x ∷ xs) ys (h, hx) hy = (h, All-append P xs ys hx hy)

-- two stretches of events, one after the other
joined :
    {P : Event → Type 0} (l l' l'' : Log)
    → (new : Log) × (l' ≡ new ++ l) × All P new
    → (new : Log) × (l'' ≡ new ++ l') × All P new
    → (new : Log) × (l'' ≡ new ++ l) × All P new
joined {P} l l' l'' (xs, p, hx) (ys, q, hy) =
    (ys ++ xs, q ∙ ap (λ z. ys ++ z) p ∙ sym (append_assoc ys xs l), All-append P ys xs hy hx)

module _ {D A : Type 0} {P : Event → Type 0} where
  pub Emits-pure : (a : A) → Emits P (pure {D = D} a)
  unfolding pure
  Emits-pure a = record { at = λ env s. ([], refl, tt) }

  pub Emits-fail : (e : Error) → Emits P (fail {D = D} {A = A} e)
  unfolding fail
  Emits-fail e = record { at = λ env s. ([], refl, tt) }

  pub Emits-crash : Emits P (crash {D = D} {A = A})
  unfolding crash
  Emits-crash = record { at = λ env s. ([], refl, tt) }

  pub Emits-if : (b : Bool) (m n : M D A) → Emits P m → Emits P n → Emits P (if b then m else n)
  Emits-if true m n km kn = km
  Emits-if false m n km kn = kn

  pub Emits-wrap : (msg : String) (m : M D A) → Emits P m → Emits P (wrap msg m)
  unfolding wrap
  Emits-wrap msg m km = record { at = λ env s. km.at env s }

module _ {D : Type 0} {P : Event → Type 0} where
  pub Emits-emit : (e : Event) → P e → Emits P (emit {D = D} e)
  unfolding emit
  Emits-emit e h = record { at = λ env s. (e ∷ [], refl, (h, tt)) }

  pub Emits-ask : Emits P (ask {D = D})
  unfolding ask
  Emits-ask = record { at = λ env s. ([], refl, tt) }

  pub Emits-current : Emits P (current {D = D})
  unfolding current
  Emits-current = record { at = λ env s. ([], refl, tt) }

  pub Emits-history : Emits P (history {D = D})
  unfolding history
  Emits-history = record { at = λ env s. ([], refl, tt) }

  pub Emits-modify : (f : D → D) → Emits P (modify f)
  unfolding modify
  Emits-modify f = record { at = λ env s. ([], refl, tt) }

module _ {D A B : Type 0} {P : Event → Type 0} where
  Emits-continue :
      (r : Result A) (f : A → M D B) → ((a : A) → Emits P (f a)) → Emits P (continue r f)
  Emits-continue (ok a) f kf = kf a
  Emits-continue (err e) f kf = record { at = λ env s. ([], refl, tt) }
  Emits-continue panic f kf = record { at = λ env s. ([], refl, tt) }

  pub Emits-bind :
      (m : M D A) (f : A → M D B) → Emits P m → ((a : A) → Emits P (f a)) → Emits P (m >>= f)
  unfolding ◌>>=◌
  Emits-bind m f km kf = record {
    at = λ env s.
        let (r, s') = m env s in joined _ _ _ (km.at env s) ((Emits-continue r f kf).at env s');
  }

  pub Emits-defer :
      (cleanup : M D B) (m : M D A) → Emits P cleanup → Emits P m → Emits P (defer cleanup m)
  unfolding defer
  Emits-defer cleanup m kc km = record {
    at = λ env s. let (r, s') = m env s in joined _ _ _ (km.at env s) (kc.at env s');
  }

module _ {D : Type 0} {P : Event → Type 0} where
  Emits-or_fail : (o : Option Error) → Emits P (or_fail {D = D} o)
  unfolding or_fail
  Emits-or_fail none = Emits-pure tt
  Emits-or_fail (some e) = Emits-fail e

  pub Emits-exec_args :
      (h : Handle) (sql : String) (args : List Arg)
      → ((o : Option Error) → P (exec h sql args o))
      → Emits P (exec_args {D = D} h sql args)
  unfolding exec_args
  Emits-exec_args h sql args ph = Emits-bind _ _ Emits-ask λ env.
      Emits-bind _ _ Emits-history λ log.
        Emits-bind _ _ (Emits-emit _ (ph (env.exec_error log h sql args)))
          λ _. Emits-or_fail (env.exec_error log h sql args)

module _ {D A : Type 0} {P : Event → Type 0} where
  pub Emits-ask_server :
      (answer : Env → Log → Handle → String → List Arg → A) (h : Handle) (sql : String)
      (args : List Arg)
      → P (query h sql args)
      → Emits P (ask_server {D = D} answer h sql args)
  unfolding ask_server
  Emits-ask_server answer h sql args ph = Emits-bind _ _ Emits-ask λ env.
      Emits-bind _ _ Emits-history
        λ log. Emits-bind _ _ (Emits-emit _ ph) λ _. Emits-pure (answer env log h sql args)

pub ruleset emits_rules = (
  Emits-pure, Emits-fail, Emits-crash, Emits-if, Emits-wrap, Emits-ask, Emits-current,
  Emits-history, Emits-modify, Emits-emit, Emits-bind, Emits-defer, Emits-exec_args,
  Emits-ask_server,
)
