-- ===== src/Contexts/Merge/Deadlines.antt =====
-- Which deadline the context of contexts/merge.go has.
use terraform_provider_postg.Base.{
  Bool, Bool-cases, true, false, inl, inr, refl, ◌≡◌, ◌⊎◌, if◌then◌else◌,
}
use terraform_provider_postg.Contexts.Merge.{deadline}

module _ {Time : Type 0} (before : Time → Time → Bool) (zero_time : Time) where
  -- The time is one of the two, and neither is before it.
  abbrev pub IsEarlier : Time → Time → Time → Type 0
  IsEarlier d1 d2 d = (before d1 d ≡ false) × (before d2 d ≡ false) × ((d ≡ d1) ⊎ (d ≡ d2))

  irreflexive :
      ((s t : Time) → before s t ≡ true → before t s ≡ false) → (t : Time) → before t t ≡ false
  irreflexive asym t = elim (Bool-cases (before t t)) [ inl h ↦ asym t t h | inr h ↦ h ]

  earlier :
      ((s t : Time) → before s t ≡ true → before t s ≡ false)
      → (d1 d2 : Time) → IsEarlier d1 d2 (if before d1 d2 then d1 else d2)
  earlier asym d1 d2 = elim (Bool-cases (before d1 d2)) [
    | inl h ↦ rw h (irreflexive asym d1, asym d1 d2 h, inl refl)
    | inr h ↦ rw h (h, irreflexive asym d2, inr refl)
  ]

  -- For every comparison of times in which no two times are before each other, and a deadline of
  -- `ctx` that is not before the zero time: if both parents have a deadline, the merged deadline is
  -- set and is the earlier one; if `mainCtx` alone has one, it is that one; if `ctx` alone has one,
  -- the merged deadline is said to be set but is the zero time.
  pub deadline_lem :
      ((s t : Time) → before s t ≡ true → before t s ≡ false)
      → (d1 d2 : Time) → before d1 zero_time ≡ false
      → ((deadline before zero_time (d1, true) (d2, true)).1 ≡ true)
        × IsEarlier d1 d2 (deadline before zero_time (d1, true) (d2, true)).0
        × (deadline before zero_time (zero_time, false) (d2, true) ≡ (d2, true))
        × (deadline before zero_time (d1, true) (zero_time, false) ≡ (zero_time, true))
  unfolding deadline
  deadline_lem asym d1 d2 late = (refl, earlier asym d1 d2, refl, rw late refl)
