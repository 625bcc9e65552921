-- ===== src/Contexts/Merge/Liveness.antt =====
-- When the channel of the context of contexts/merge.go is closed.
use terraform_provider_postg.Base.{
  Bool, List, Option, [], ◌∷◌, arith, ap, none, some, true, false, inl, inr, refl, suc, sym, ℕ, ◌≡◌,
  ◌⊎◌, ◌≤◌, ◌∙◌,
}
use terraform_provider_postg.Effect.{Error}
use mathlib.Core.Bool.{true≢false}
use terraform_provider_postg.Contexts.Merge.Safety.{
  Held, happen-Held, history_of-Held, select-cases,
}
use terraform_provider_postg.Contexts.Merge.{
  MergedContext, Parent, Case, Happening, Routine, selecting, woken, closing, returned, crashed,
  main_ends, ctx_ends, turn, merge, ended, is_done, select, set_err, close_done, run_at, happen,
  history_of,
}

-- How many turns `run` has before it.
abbrev turns_left : Routine → ℕ
turns_left selecting = 3
turns_left (woken parent) = 2
turns_left closing = 1
turns_left returned = 0
turns_left crashed = 0

abbrev pub turns : List Happening → ℕ
turns [] = 0
turns (main_ends e ∷ hs) = turns hs
turns (ctx_ends e ∷ hs) = turns hs
turns (turn prefer ∷ hs) = suc (turns hs)

abbrev pub ParentEnded : MergedContext → Type 0
ParentEnded c = (is_done c.main_err ≡ true) ⊎ (is_done c.ctx_err ≡ true)

is_done-ended : (o : Option Error) (e : Error) → is_done (ended o e) ≡ true
is_done-ended none e = refl
is_done-ended (some x) e = refl

set_err-keeps :
    (parent : Parent) (err : Option Error) (c : MergedContext)
    → (set_err parent err c).main_err ≡ c.main_err
      × (set_err parent err c).ctx_err ≡ c.ctx_err
      × turns_left (set_err parent err c).routine ≤ 1
set_err-keeps parent none c = (refl, refl, omega arith)
set_err-keeps parent (some e) c = (refl, refl, omega arith)

close_done-keeps :
    (b : Bool) (c : MergedContext)
    → (close_done b c).main_err ≡ c.main_err
      × (close_done b c).ctx_err ≡ c.ctx_err
      × turns_left (close_done b c).routine ≤ 0
close_done-keeps true c = (refl, refl, omega arith)
close_done-keeps false c = (refl, refl, omega arith)

select-turns :
    (prefer : Case) (c : MergedContext)
    → c.done ≡ false
    → ParentEnded c
    → turns_left (select prefer c) ≤ 2
select-turns prefer c d p = elim (select-cases prefer c d) [
  | inl (q, m, x) ↦ elim p [
    | inl h ↦ absurd (true≢false (sym h ∙ m))
    | inr h ↦ absurd (true≢false (sym h ∙ x))
  ]
  | inr (parent, q, x) ↦ rw q (omega arith)
]

same_parents :
    (c c' : MergedContext)
    → c'.main_err ≡ c.main_err
    → c'.ctx_err ≡ c.ctx_err
    → ParentEnded c
    → ParentEnded c'
same_parents c c' m x (inl h) = inl (ap is_done m ∙ h)
same_parents c c' m x (inr h) = inr (ap is_done x ∙ h)

-- A turn is progress, once a parent has ended.
run_at-turns :
    (at : Routine) (prefer : Case) (c : MergedContext) (n : ℕ)
    → c.routine ≡ at
    → Held at c
    → ParentEnded c
    → turns_left at ≤ suc n
    → ParentEnded (run_at at prefer c) × (turns_left (run_at at prefer c).routine ≤ n)
run_at-turns selecting prefer c n r (p, d) e h = (e, omega (arith, h, select-turns prefer c d e))
run_at-turns (woken parent) prefer c n r k e h =
    let (m, x, t) = set_err-keeps parent c.err c in
    (same_parents c (set_err parent c.err c) m x e, omega (arith, h, t))
run_at-turns closing prefer c n r k e h =
    let (m, x, t) = close_done-keeps c.done c in
    (same_parents c (close_done c.done c) m x e, omega (arith, h, t))
run_at-turns returned prefer c n r k e h = (e, rw r (omega arith))
run_at-turns crashed prefer c n r k e h = absurd k

main_ended : (c : MergedContext) (e : Error) → ParentEnded (happen (main_ends e) c)
unfolding happen
main_ended c e = inl (is_done-ended c.main_err e)

ctx_ended : (c : MergedContext) (e : Error) → ParentEnded (happen (ctx_ends e) c)
unfolding happen
ctx_ended c e = inr (is_done-ended c.ctx_err e)

no_turns : (at : Routine) (c : MergedContext) → Held at c → turns_left at ≤ 0 → c.done ≡ true
no_turns selecting c k h = absurd (omega (arith, h))
no_turns (woken parent) c k h = absurd (omega (arith, h))
no_turns closing c k h = absurd (omega (arith, h))
no_turns returned c (e, p, q, d) h = d
no_turns crashed c k h = absurd k

history_of-done :
    (hs : List Happening) (c : MergedContext)
    → Held c.routine c
    → ParentEnded c
    → turns_left c.routine ≤ turns hs
    → (history_of hs c).done ≡ true
unfolding history_of happen
history_of-done [] c k e h = no_turns c.routine c k h
history_of-done (main_ends x ∷ hs) c k e h =
    history_of-done hs (happen (main_ends x) c) (happen-Held (main_ends x) c k) (main_ended c x) h
history_of-done (ctx_ends x ∷ hs) c k e h =
    history_of-done hs (happen (ctx_ends x) c) (happen-Held (ctx_ends x) c k) (ctx_ended c x) h
history_of-done (turn prefer ∷ hs) c k e h =
    let (e', t) = run_at-turns c.routine prefer c (turns hs) refl k e h in
    history_of-done hs (happen (turn prefer) c) (happen-Held (turn prefer) c k) e' t

turns_left_max : (at : Routine) → turns_left at ≤ 3
turns_left_max selecting = omega arith
turns_left_max (woken parent) = omega arith
turns_left_max closing = omega arith
turns_left_max returned = omega arith
turns_left_max crashed = omega arith

-- Once a parent of a merged context has ended, the context's channel is closed as soon as `run` has
-- had three more turns, whatever happened before, whatever happens in between and whichever ready
-- case `select` takes.
pub history_of-closed :
    (main_err ctx_err : Option Error) (before after : List Happening)
    → ParentEnded (history_of before (merge main_err ctx_err))
    → 3 ≤ turns after
    → (history_of after (history_of before (merge main_err ctx_err))).done ≡ true
history_of-closed main_err ctx_err before after e h =
    let c = history_of before (merge main_err ctx_err) in
    history_of-done after c (history_of-Held before (merge main_err ctx_err) (refl, refl)) e
      (omega (arith, h, turns_left_max c.routine))
