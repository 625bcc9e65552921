-- ===== src/Contexts/Merge/Safety.antt =====
-- What holds of the context of contexts/merge.go at every moment.
use terraform_provider_postg.Base.{
  subst, Bool, Bool-cases, Option, none, some, true, false, inl, inr, refl, ◌≡◌, ◌⊎◌, ◌≢◌, List, [],
  ◌∷◌, sym,
}
use mathlib.Core.Bool.{true≢false}
use terraform_provider_postg.Effect.{Error}
use terraform_provider_postg.Contexts.Merge.{
  MergedContext, Parent, Case, Happening, Routine, main_ctx, ctx, main_done, ctx_done, own_done,
  selecting, woken, closing, returned, crashed, main_ends, ctx_ends, turn, merge, ended, is_done,
  parent_err, select, set_err, close_done, run_at, happen, history_of,
}

-- The error is the one with which a parent ended.
abbrev pub FromParent : MergedContext → Error → Type 0
FromParent c e = (c.main_err ≡ some e) ⊎ (c.ctx_err ≡ some e)

-- What is set at each point of `run`.
abbrev pub Held : Routine → MergedContext → Type 0
Held selecting c = (c.err ≡ none) × (c.done ≡ false)
Held (woken parent) c = (is_done (parent_err parent c) ≡ true) × (c.err ≡ none) × (c.done ≡ false)
Held closing c = (e : Error) × (c.err ≡ some e) × FromParent c e × (c.done ≡ false)
Held returned c = (e : Error) × (c.err ≡ some e) × FromParent c e × (c.done ≡ true)
Held crashed c = ⊥

-- Without an error the channel is open; an error is a parent's.
abbrev pub ErrIsSound : Option Error → MergedContext → Type 0
ErrIsSound none c = c.done ≡ false
ErrIsSound (some e) c = FromParent c e

abbrev pub Sound : MergedContext → Type 0
Sound c = (c.routine ≢ crashed) × ErrIsSound c.err c

ended_keeps : (old : Option Error) (e e' : Error) → old ≡ some e → ended old e' ≡ some e
ended_keeps old e e' h = rw h refl

ended_done : (old : Option Error) (e : Error) → is_done old ≡ true → is_done (ended old e) ≡ true
ended_done none e h = refl
ended_done (some x) e h = refl

is_done_of : (o : Option Error) → is_done o ≡ true → (e : Error) × (o ≡ some e)
is_done_of none h = absurd (true≢false (sym h))
is_done_of (some e) h = (e, refl)

main_ends-Held :
    (at : Routine) (e : Error) (c : MergedContext)
    → Held at c
    → Held at (record c { main_err = ended c.main_err e })
main_ends-Held selecting e c h = h
main_ends-Held (woken main_ctx) e c (d, h, k) = (ended_done c.main_err e d, h, k)
main_ends-Held (woken ctx) e c h = h
main_ends-Held closing e c (x, p, inl q, d) = (x, p, inl (ended_keeps c.main_err x e q), d)
main_ends-Held closing e c (x, p, inr q, d) = (x, p, inr q, d)
main_ends-Held returned e c (x, p, inl q, d) = (x, p, inl (ended_keeps c.main_err x e q), d)
main_ends-Held returned e c (x, p, inr q, d) = (x, p, inr q, d)
main_ends-Held crashed e c u = absurd u

ctx_ends-Held :
    (at : Routine) (e : Error) (c : MergedContext)
    → Held at c
    → Held at (record c { ctx_err = ended c.ctx_err e })
ctx_ends-Held selecting e c h = h
ctx_ends-Held (woken main_ctx) e c h = h
ctx_ends-Held (woken ctx) e c (d, h, k) = (ended_done c.ctx_err e d, h, k)
ctx_ends-Held closing e c (x, p, inl q, d) = (x, p, inl q, d)
ctx_ends-Held closing e c (x, p, inr q, d) = (x, p, inr (ended_keeps c.ctx_err x e q), d)
ctx_ends-Held returned e c (x, p, inl q, d) = (x, p, inl q, d)
ctx_ends-Held returned e c (x, p, inr q, d) = (x, p, inr (ended_keeps c.ctx_err x e q), d)
ctx_ends-Held crashed e c u = absurd u

module _ (c : MergedContext) (d : c.done ≡ false) where
  none_done :
      (prefer : Case)
      → is_done c.main_err ≡ false
      → is_done c.ctx_err ≡ false
      → select prefer c ≡ selecting
  unfolding select
  none_done main_done m x = rw (m, x, d) refl
  none_done ctx_done m x = rw (m, x, d) refl
  none_done own_done m x = rw (m, x, d) refl

  main_alone :
      (prefer : Case)
      → is_done c.main_err ≡ true
      → is_done c.ctx_err ≡ false
      → select prefer c ≡ woken main_ctx
  unfolding select
  main_alone main_done m x = rw m refl
  main_alone ctx_done m x = rw (m, x) refl
  main_alone own_done m x = rw (m, d) refl

  ctx_alone :
      (prefer : Case)
      → is_done c.main_err ≡ false
      → is_done c.ctx_err ≡ true
      → select prefer c ≡ woken ctx
  unfolding select
  ctx_alone main_done m x = rw (m, x) refl
  ctx_alone ctx_done m x = rw x refl
  ctx_alone own_done m x = rw (m, x, d) refl

  both_done :
      (prefer : Case)
      → is_done c.main_err ≡ true
      → is_done c.ctx_err ≡ true
      → ((select prefer c ≡ selecting) × (is_done c.main_err ≡ false) × (is_done c.ctx_err ≡ false))
        ⊎ ((parent : Parent) × (select prefer c ≡ woken parent)
            × (is_done (parent_err parent c) ≡ true))
  unfolding select
  both_done main_done m x = inr (main_ctx, rw m refl, m)
  both_done ctx_done m x = inr (ctx, rw x refl, x)
  both_done own_done m x = inr (main_ctx, rw (m, d) refl, m)

-- Behind a `select` with an open channel, the goroutine still waits or it knows a parent that ended.
pub select-cases :
    (prefer : Case) (c : MergedContext)
    → c.done ≡ false
    → ((select prefer c ≡ selecting) × (is_done c.main_err ≡ false) × (is_done c.ctx_err ≡ false))
      ⊎ ((parent : Parent) × (select prefer c ≡ woken parent)
          × (is_done (parent_err parent c) ≡ true))
unfolding select
select-cases prefer c d = elim (Bool-cases (is_done c.main_err)) [
  | inl m ↦ elim (Bool-cases (is_done c.ctx_err)) [
    | inl x ↦ both_done c d prefer m x
    | inr x ↦ inr (main_ctx, main_alone c d prefer m x, m)
  ]
  | inr m ↦ elim (Bool-cases (is_done c.ctx_err)) [
    | inl x ↦ inr (ctx, ctx_alone c d prefer m x, x)
    | inr x ↦ inl (none_done c d prefer m x, m, x)
  ]
]

same_parent :
    (parent : Parent) (at : Routine) (c : MergedContext)
    → is_done (parent_err parent c) ≡ true
    → is_done (parent_err parent (record c { routine = at })) ≡ true
same_parent main_ctx at c x = x
same_parent ctx at c x = x

select-Held :
    (prefer : Case) (c : MergedContext)
    → c.err ≡ none
    → c.done ≡ false
    → Held (select prefer c) (record c { routine = select prefer c })
select-Held prefer c p d = elim (select-cases prefer c d) [
  | inl (q, m, x) ↦ rw q (p, d)
  | inr (parent, q, x) ↦ rw q (same_parent parent (woken parent) c x, p, d)
]

close_done-Held :
    (b : Bool) (c : MergedContext) (e : Error)
    → c.err ≡ some e
    → FromParent c e
    → b ≡ false
    → Held (close_done b c).routine (close_done b c)
close_done-Held true c e p q d = absurd (true≢false d)
close_done-Held false c e p q d = (e, p, q, refl)

from_parent :
    (parent : Parent) (c : MergedContext)
    → is_done (parent_err parent c) ≡ true
    → (e : Error) × (parent_err parent c ≡ some e) × FromParent c e
from_parent main_ctx c h = let (e, q) = is_done_of c.main_err h in (e, q, inl q)
from_parent ctx c h = let (e, q) = is_done_of c.ctx_err h in (e, q, inr q)

set_err-Held :
    (parent : Parent) (err : Option Error) (c : MergedContext)
    → is_done (parent_err parent c) ≡ true
    → err ≡ none
    → c.done ≡ false
    → Held (set_err parent err c).routine (set_err parent err c)
set_err-Held parent none c x p d = let (e, q, f) = from_parent parent c x in (e, q, f, d)
set_err-Held parent (some e) c x p d = cc

run_at-Held :
    (at : Routine) (prefer : Case) (c : MergedContext)
    → c.routine ≡ at
    → Held at c
    → Held (run_at at prefer c).routine (run_at at prefer c)
run_at-Held selecting prefer c r (p, d) = select-Held prefer c p d
run_at-Held (woken parent) prefer c r (x, p, d) = set_err-Held parent c.err c x p d
run_at-Held closing prefer c r (e, p, q, d) = close_done-Held c.done c e p q d
run_at-Held returned prefer c r h = rw r h
run_at-Held crashed prefer c r u = absurd u

pub happen-Held :
    (h : Happening) (c : MergedContext) → Held c.routine c → Held (happen h c).routine (happen h c)
unfolding happen
happen-Held (main_ends e) c k = main_ends-Held c.routine e c k
happen-Held (ctx_ends e) c k = ctx_ends-Held c.routine e c k
happen-Held (turn prefer) c k = run_at-Held c.routine prefer c refl k

pub history_of-Held :
    (hs : List Happening) (c : MergedContext)
    → Held c.routine c
    → Held (history_of hs c).routine (history_of hs c)
unfolding history_of
history_of-Held [] c k = k
history_of-Held (h ∷ hs) c k = history_of-Held hs (happen h c) (happen-Held h c k)

with_err-Sound :
    (c : MergedContext) (e : Error)
    → c.routine ≢ crashed
    → c.err ≡ some e
    → FromParent c e
    → Sound c
with_err-Sound c e r p q = (r, subst (λ o. ErrIsSound o c) (sym p) q)

without_err-Sound :
    (c : MergedContext) → c.routine ≢ crashed → c.err ≡ none → c.done ≡ false → Sound c
without_err-Sound c r p d = (r, subst (λ o. ErrIsSound o c) (sym p) d)

Held-Sound : (at : Routine) (c : MergedContext) → c.routine ≡ at → Held at c → Sound c
Held-Sound selecting c r (p, d) = without_err-Sound c (λ h. cc) p d
Held-Sound (woken x) c r (w, p, d) = without_err-Sound c (λ h. cc) p d
Held-Sound closing c r (e, p, q, d) = with_err-Sound c e (λ h. cc) p q
Held-Sound returned c r (e, p, q, d) = with_err-Sound c e (λ h. cc) p q
Held-Sound crashed c r u = absurd u

-- Whatever happens to a merged context and its parents, `run` never closes the channel twice, an
-- error of the merged context is the error of one of its parents, and the channel is closed only
-- when the error is set.
pub history_of-Sound :
    (main_err ctx_err : Option Error) (hs : List Happening)
    → Sound (history_of hs (merge main_err ctx_err))
history_of-Sound main_err ctx_err hs =
    let c = history_of hs (merge main_err ctx_err) in
    Held-Sound c.routine c refl (history_of-Held hs (merge main_err ctx_err) (refl, refl))
