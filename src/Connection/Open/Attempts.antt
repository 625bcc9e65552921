-- ===== src/Connection/Open/Attempts.antt =====
-- How often postgresql/config.go tries to open a connection, and what it has then.
use terraform_provider_postg.Base.{
  subst, List, Option, String, [], none, some, arith, refl, ℕ, zero, suc, ◌+◌, ◌≡◌, ◌≤◌, ◌∷◌,
}
use terraform_provider_postg.Connection.{
  Deed, Process, Outside, opened, pinged, ran, reused, closed, set_max_open_conns, asked_version,
  drew, waited, dialled, ranged, started_ssh, record_deed,
}
use terraform_provider_postg.Connection.Open.{
  attempt, open_connection, sleep, ping, open_db, after_ping, after_open,
}
use terraform_provider_postg.Effect.{
  pure, M, Env, Error, Session, Result, ok, err, panic, wrapped, ◌>>=◌,
}

abbrev pub count_opened : List Deed → ℕ
count_opened [] = 0
count_opened (opened dsn ∷ ds) = suc (count_opened ds)
count_opened (ran command args ∷ ds) = count_opened ds
count_opened (pinged dsn ∷ ds) = count_opened ds
count_opened (reused dsn ∷ ds) = count_opened ds
count_opened (closed dsn ∷ ds) = count_opened ds
count_opened (set_max_open_conns dsn n ∷ ds) = count_opened ds
count_opened (asked_version dsn ∷ ds) = count_opened ds
count_opened (drew n ∷ ds) = count_opened ds
count_opened (waited n ∷ ds) = count_opened ds
count_opened (dialled n ∷ ds) = count_opened ds
count_opened (started_ssh args ∷ ds) = count_opened ds
count_opened (ranged ∷ ds) = count_opened ds

module _ {Version : Type 0} (out : Outside Version) (dsn : String) where
  -- The newest deed is a ping that was answered.
  abbrev pub Answered : Process Version → Type 0
  Answered p =
      (before : List Deed) × (p.deeds ≡ pinged dsn ∷ before) × (out.ping_error before dsn ≡ none)

  -- Either a ping was answered after at most so many pools, or so many were opened in vain.
  abbrev pub EndsWithin : ℕ → ℕ → Result (Option Error) × Session (Process Version) → Type 0
  EndsWithin n before (ok none, s) = Answered s.res × (count_opened s.res.deeds ≤ n + before)
  EndsWithin n before (ok (some e), s) = count_opened s.res.deeds ≡ n + before
  EndsWithin n before (err e, s) = ⊥
  EndsWithin n before (panic, s) = ⊥

  EndsWithin-suc :
      (n before : ℕ) (o : Result (Option Error) × Session (Process Version))
      → EndsWithin n (suc before) o
      → EndsWithin (suc n) before o
  EndsWithin-suc n before (ok none, s) (a, h) = (a, omega (arith, h))
  EndsWithin-suc n before (ok (some e), s) h = omega (arith, h)
  EndsWithin-suc n before (err e, s) u = u
  EndsWithin-suc n before (panic, s) u = u

  module _ (env : Env) (n : ℕ) (rest : Option Error → M (Process Version) (Option Error)) where
    -- What holds of the rounds that are left.
    abbrev RestEnds : Type 0
    RestEnds =
        (e : Error) (s : Session (Process Version))
        → EndsWithin n (count_opened s.res.deeds) (rest (some e) env s)

    after_ping-EndsWithin :
        RestEnds
        → (before : List Deed) (o : Option Error) (s : Session (Process Version))
        → s.res.deeds ≡ pinged dsn ∷ before
        → out.ping_error before dsn ≡ o
        → EndsWithin n (count_opened before) (after_ping out rest o env s)
    unfolding after_ping pure
    after_ping-EndsWithin ends before none s d p = ((before, d, p), rw d (omega arith))
    after_ping-EndsWithin ends before (some e) s d p =
        subst
          (λ k. EndsWithin n (count_opened k) (rest (some (wrapped "failed to ping db" e)) env s)) d
          (ends (wrapped "failed to ping db" e) s)

    after_open-EndsWithin :
        RestEnds
        → (o : Option Error) (s : Session (Process Version))
        → EndsWithin n (count_opened s.res.deeds) (after_open out dsn rest o env s)
    unfolding after_open ping sleep record_deed ◌>>=◌
    after_open-EndsWithin ends none s =
        after_ping-EndsWithin ends s.res.deeds (out.ping_error s.res.deeds dsn) _ refl refl
    after_open-EndsWithin ends (some e) s = ends e _

    round-EndsWithin :
        RestEnds
        → (s : Session (Process Version))
        → EndsWithin
            (suc n)
            (count_opened s.res.deeds)
            ((open_db out "postgres" dsn >>= after_open out dsn rest) env s)
    unfolding open_db record_deed ◌>>=◌
    round-EndsWithin ends s = EndsWithin-suc n (count_opened s.res.deeds) _ (
        after_open-EndsWithin ends (out.open_error s.res.deeds "postgres" dsn)
          (record s { res = record (s.res) { deeds = opened dsn ∷ s.res.deeds } }))

  attempt-EndsWithin :
      (env : Env) (n : ℕ) (e : Error) (s : Session (Process Version))
      → EndsWithin n (count_opened s.res.deeds) (attempt out n dsn (some e) env s)
  unfolding attempt pure
  attempt-EndsWithin env zero e s = omega arith
  attempt-EndsWithin env (suc n) e s =
      round-EndsWithin env n (attempt out n dsn) (λ x t. attempt-EndsWithin env n x t) s

  -- The attempts to open a connection with lib/pq end, without a panic: either with no error, when
  -- the newest deed is a ping that the server answered and at most ten pools were opened, or with
  -- an error after exactly ten.
  pub open_connection-EndsWithin :
      (env : Env) (s : Session (Process Version))
      → EndsWithin 10 (count_opened s.res.deeds) (open_connection out "postgres" dsn env s)
  unfolding open_connection attempt
  open_connection-EndsWithin env s =
      round-EndsWithin env 9 (attempt out 9 dsn) (λ x t. attempt-EndsWithin env 9 x t) s
