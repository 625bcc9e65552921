-- ===== src/Tests/Contexts.antt =====
-- A merged context whose main parent ends.
use terraform_provider_postg.Base.{List, [], ◌∷◌, arith, inl, ltb, none, true, false, refl, ℕ, ◌≡◌}
use terraform_provider_postg.Contexts.Merge.{
  Happening, ctx_done, ctx_ends, deadline, history_of, main_done, main_ends, merge, turn,
}
use terraform_provider_postg.Contexts.Merge.Deadlines.{IsEarlier, deadline_lem}
use terraform_provider_postg.Contexts.Merge.Liveness.{ParentEnded, history_of-closed}
use terraform_provider_postg.Contexts.Merge.Safety.{Sound, history_of-Sound}
use terraform_provider_postg.Effect.{text}

abbrev stopped : List Happening
stopped = turn main_done ∷ main_ends (text "context canceled") ∷ []

abbrev later : List Happening
later = turn ctx_done ∷ ctx_ends (text "deadline exceeded") ∷ turn main_done ∷ turn main_done ∷ []

has_stopped : ParentEnded (history_of stopped (merge none none))
unfolding history_of
has_stopped = inl refl

history_of-Sound_example : Sound (history_of stopped (merge none none))
history_of-Sound_example = history_of-Sound none none stopped

history_of-closed_example : (history_of later (history_of stopped (merge none none))).done ≡ true
history_of-closed_example = history_of-closed none none stopped later has_stopped (omega arith)

asymmetric : (s t : ℕ) → ltb s t ≡ true → ltb t s ≡ false
asymmetric s t h = ground (arith, h)

deadline_lem_example :
    ((deadline ltb 0 (20, true) (30, true)).1 ≡ true)
    × IsEarlier ltb 0 20 30 (deadline ltb 0 (20, true) (30, true)).0
    × (deadline ltb 0 (0, false) (30, true) ≡ (30, true))
    × (deadline ltb 0 (20, true) (0, false) ≡ (0, true))
deadline_lem_example = deadline_lem ltb 0 asymmetric 20 30 refl
