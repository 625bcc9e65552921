-- ===== src/Map/Laws.antt =====
-- Laws of the maps: a key holds what was put there last.
use mathlib.Core.Bool.{true≢false}
use terraform_provider_postg.Base.{
  if◌then◌else◌, subst, String, Bool-cases, [], ◌∷◌, ◌==◌, ◌≡◌, refl, sym, ◌∙◌, ap, inl, inr, false,
  none, some, eq_of_beq, eq_refl, arith,
}
use terraform_provider_postg.Map.{Map, get, put, remove}

beq_sym : (s t : String) → (s == t) ≡ false → (t == s) ≡ false
beq_sym s t h = elim (Bool-cases (t == s)) [
  | inr e ↦ e
  | inl e ↦ absurd (true≢false (sym (eq_refl s) ∙ ap (λ u. s == u) (sym (eq_of_beq t s e)) ∙ h))
]

module _ {ℓ} {V : Type ℓ} where
  -- Each key is there once.
  abbrev pub Unique : Map V → Type ℓ
  Unique [] = Unit
  Unique ((k, v) ∷ m) = (get k m ≡ none) × Unique m

  pub get-remove : (key : String) (m : Map V) → get key (remove key m) ≡ none
  unfolding get remove
  get-remove key [] = refl
  get-remove key ((k, v) ∷ m) = ground (arith, get-remove key m)

  pub get-remove_other :
      (key other : String) (m : Map V)
      → (key == other) ≡ false
      → get other (remove key m) ≡ get other m
  unfolding get remove
  get-remove_other key other [] h = refl
  get-remove_other key other ((k, v) ∷ m) h = elim (Bool-cases (k == key)) [
    | inl e ↦
        rw (e, subst (λ j. (j == other) ≡ false) (sym (eq_of_beq k key e)) h)
          (get-remove_other key other m h)
    | inr e ↦ elim (Bool-cases (k == other)) [
      | inl f ↦ rw (e, f) refl
      | inr f ↦ rw (e, f) (get-remove_other key other m h)
    ]
  ]

  remove-Unique : (key : String) (m : Map V) → Unique m → Unique (remove key m)
  unfolding remove
  remove-Unique key [] u = tt
  remove-Unique key ((k, v) ∷ m) (u, us) = elim (Bool-cases (k == key)) [
    | inl e ↦ rw e (remove-Unique key m us)
    | inr e ↦ rw e (get-remove_other key k m (beq_sym k key e) ∙ u, remove-Unique key m us)
  ]

  pub put-Unique : (key : String) (v : V) (m : Map V) → Unique m → Unique (put key v m)
  unfolding put
  put-Unique key v m u = (get-remove key m, remove-Unique key m u)

  pub get-put :
      (key other : String) (v : V) (m : Map V)
      → get other (put key v m) ≡ (if key == other then some v else get other m)
  unfolding put get
  get-put key other v m = elim (Bool-cases (key == other)) [
    | inl e ↦ rw e refl
    | inr e ↦ rw e (get-remove_other key other m e)
  ]
