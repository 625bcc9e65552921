-- ===== src/Effect/OnOk.antt =====
-- What holds when a program returns with no error, and the rules for building programs.
use terraform_provider_postg.Base.{Bool, true, false, if◌then◌else◌, String}
use terraform_provider_postg.Effect.{
  Result, ok, err, panic, Env, Session, M, ◌>>=◌, continue, wrap, wrap_result,
}

module _ {D A : Type 0} where
  -- Partial: it says nothing of a run that ends in an error or a panic.
  abbrev pub OnOk : (A → Session D → Type 0) → Result A × Session D → Type 0
  OnOk Q (ok a, s) = Q a s
  OnOk Q (err e, s) = Unit
  OnOk Q (panic, s) = Unit

  pub OnOk-weaken :
      (Q R : A → Session D → Type 0) (o : Result A × Session D)
      → ((a : A) (s : Session D) → R a s → Q a s)
      → OnOk R o
      → OnOk Q o
  OnOk-weaken Q R (ok a, s) f h = f a s h
  OnOk-weaken Q R (err e, s) f h = tt
  OnOk-weaken Q R (panic, s) f h = tt

  pub OnOk-if :
      (Q : A → Session D → Type 0) (b : Bool) (m n : M D A) (env : Env) (s : Session D)
      → OnOk Q (m env s)
      → OnOk Q (n env s)
      → OnOk Q ((if b then m else n) env s)
  OnOk-if Q true m n env s h k = h
  OnOk-if Q false m n env s h k = k

  OnOk-wrap_result :
      (Q : A → Session D → Type 0) (msg : String) (o : Result A × Session D)
      → OnOk Q o
      → OnOk Q (wrap_result msg o.0, o.1)
  OnOk-wrap_result Q msg (ok a, s) h = h
  OnOk-wrap_result Q msg (err e, s) h = tt
  OnOk-wrap_result Q msg (panic, s) h = tt

  pub OnOk-wrap :
      (Q : A → Session D → Type 0) (msg : String) (m : M D A) (env : Env) (s : Session D)
      → OnOk Q (m env s)
      → OnOk Q (wrap msg m env s)
  unfolding wrap
  OnOk-wrap Q msg m env s h = OnOk-wrap_result Q msg (m env s) h

module _ {D A B : Type 0} where
  OnOk-continue :
      (Q : B → Session D → Type 0) (R : A → Session D → Type 0) (f : A → M D B) (env : Env)
      (o : Result A × Session D)
      → OnOk R o
      → ((a : A) (s : Session D) → R a s → OnOk Q (f a env s))
      → OnOk Q (continue o.0 f env o.1)
  OnOk-continue Q R f env (ok a, s) h k = k a s h
  OnOk-continue Q R f env (err e, s) h k = tt
  OnOk-continue Q R f env (panic, s) h k = tt

  pub OnOk-bind :
      (Q : B → Session D → Type 0) (R : A → Session D → Type 0) (m : M D A) (f : A → M D B)
      (env : Env) (s : Session D)
      → OnOk R (m env s)
      → ((a : A) (s' : Session D) → R a s' → OnOk Q (f a env s'))
      → OnOk Q ((m >>= f) env s)
  unfolding ◌>>=◌
  OnOk-bind Q R m f env s h k = OnOk-continue Q R f env (m env s) h k

module _ {D A : Type 0} where
  -- What holds whenever the program ends well.
  pub record Gives (Q : A → Session D → Type 0) (m : M D A) : Type 0 where
    pub at : (env : Env) (s : Session D) → OnOk Q (m env s)

module _ {D A B : Type 0} where
  after_any :
      (Q : B → Session D → Type 0) (f : A → M D B) (env : Env) (o : Result A × Session D)
      → ((a : A) → Gives Q (f a))
      → OnOk Q (continue o.0 f env o.1)
  after_any Q f env (ok a, s) h = (h a).at env s
  after_any Q f env (err e, s) h = tt
  after_any Q f env (panic, s) h = tt

  -- The first part may do anything.
  pub Gives-after :
      (Q : B → Session D → Type 0) (m : M D A) (f : A → M D B)
      → ((a : A) → Gives Q (f a))
      → Gives Q (m >>= f)
  unfolding ◌>>=◌
  Gives-after Q m f h = record { at = λ env s. after_any Q f env (m env s) h }
