-- ===== src/Effect/Preserves.antt =====
-- Programs that keep an invariant of the resource data, however they end.
use terraform_provider_postg.Base.{Bool, Option, String, if◌then◌else◌, none, some, true, false}
use terraform_provider_postg.Effect.{
  Env, Error, M, Result, Session, ok, err, panic, pure, fail, crash, current, modify, wrap, or_fail,
  or_crash, continue, ◌>>=◌,
}

module _ {D : Type 0} (I : D → Type 0) where
  pub record Preserves {A : Type 0} (m : M D A) : Type 0 where
    pub at : (env : Env) (s : Session D) → I s.res → I (m env s).1.res

  pub Preserves-pure : {A : Type 0} → (a : A) → Preserves (pure a)
  unfolding pure
  Preserves-pure a = record { at = λ env s h. h }

  pub Preserves-fail : {A : Type 0} → (e : Error) → Preserves (fail {A = A} e)
  unfolding fail
  Preserves-fail e = record { at = λ env s h. h }

  pub Preserves-crash : {A : Type 0} → Preserves (crash {A = A})
  unfolding crash
  Preserves-crash = record { at = λ env s h. h }

  pub Preserves-or_fail : (o : Option Error) → Preserves (or_fail o)
  unfolding or_fail
  Preserves-or_fail none = Preserves-pure tt
  Preserves-or_fail (some e) = Preserves-fail e

  pub Preserves-modify : (f : D → D) → ((d : D) → I d → I (f d)) → Preserves (modify f)
  unfolding modify
  Preserves-modify f h = record { at = λ env s i. h s.res i }

  pub Preserves-if :
      {A : Type 0}
      → (b : Bool) (m n : M D A) → Preserves m
      → Preserves n
      → Preserves (if b then m else n)
  Preserves-if true m n h k = h
  Preserves-if false m n h k = k

  continue-at :
      {A B : Type 0}
      → (r : Result A) (f : A → M D B) (env : Env) (s : Session D) → ((a : A) → Preserves (f a))
      → I s.res
      → I (continue r f env s).1.res
  continue-at (ok a) f env s h i = (h a).at env s i
  continue-at (err e) f env s h i = i
  continue-at panic f env s h i = i

  pub Preserves-bind :
      {A B : Type 0}
      → (m : M D A) (f : A → M D B) → Preserves m
      → ((a : A) → Preserves (f a))
      → Preserves (m >>= f)
  unfolding ◌>>=◌
  Preserves-bind m f h k = record {
    at = λ env s i. continue-at (m env s).0 f env (m env s).1 k (h.at env s i);
  }

  pub Preserves-current : Preserves current
  unfolding current
  Preserves-current = record { at = λ env s i. i }

  pub Preserves-wrap :
      {A : Type 0} → (msg : String) (m : M D A) → Preserves m → Preserves (wrap msg m)
  unfolding wrap
  Preserves-wrap msg m h = record { at = h.at }

  pub Preserves-or_crash : {A : Type 0} → (m : M D A) → Preserves m → Preserves (or_crash m)
  unfolding or_crash
  Preserves-or_crash m h = record { at = h.at }

-- The rules for the ways to put programs together.
pub ruleset preserves_rules = (
  Preserves-pure, Preserves-fail, Preserves-crash, Preserves-or_fail, Preserves-if, Preserves-bind,
  Preserves-current, Preserves-wrap, Preserves-or_crash,
)
