-- ===== src/Text/Escape/Safe.antt =====
-- Which characters a text escaped by `url.QueryEscape` has, and where such a text ends.
use Prim.Native.Char.{Char, code}
use Prim.Native.Nat.{◌/◌, ◌%◌}
use Prim.Native.String.{[], ◌∷◌, ◌++◌}
use text.Mathlib.TextLemmas.{nil-append, cons-append}
use terraform_provider_postg.Base.{
  All, Bool, Bool-cases, List, String, ap, arith, if◌then◌else◌, inl, inr, refl, subst, suc, sym,
  true, false, zero, ℕ, ◌=ℕ◌, ◌||◌, ◌≡◌, ◌<◌, ◌∙◌,
}
use terraform_provider_postg.Text.Escape.{
  escape_bytes, escape_char, hex_digit, is_unreserved, query_escape, utf8,
}
use terraform_provider_postg.Text.Escape.Reading.{code_lt, utf8_lt}

abbrev pub is_safe : ℕ → Bool
is_safe n = is_unreserved n || ((n =ℕ b'+') || (n =ℕ b'%'))

abbrev pub IsSafe : String → Type 0
IsSafe [] = Unit
IsSafe (c ∷ s) = (is_safe (code c) ≡ true) × IsSafe s

hex_digit-IsSafe : (n : ℕ) → n < 16 → is_safe (code (hex_digit n)) ≡ true
unfolding hex_digit
hex_digit-IsSafe zero h = refl
hex_digit-IsSafe (suc zero) h = refl
hex_digit-IsSafe (suc (suc zero)) h = refl
hex_digit-IsSafe (suc (suc (suc zero))) h = refl
hex_digit-IsSafe (suc (suc (suc (suc zero)))) h = refl
hex_digit-IsSafe (suc (suc (suc (suc (suc zero))))) h = refl
hex_digit-IsSafe (suc (suc (suc (suc (suc (suc zero)))))) h = refl
hex_digit-IsSafe (suc (suc (suc (suc (suc (suc (suc zero))))))) h = refl
hex_digit-IsSafe (suc (suc (suc (suc (suc (suc (suc (suc zero)))))))) h = refl
hex_digit-IsSafe (suc (suc (suc (suc (suc (suc (suc (suc (suc zero))))))))) h = refl
hex_digit-IsSafe (suc (suc (suc (suc (suc (suc (suc (suc (suc (suc zero)))))))))) h = refl
hex_digit-IsSafe (suc (suc (suc (suc (suc (suc (suc (suc (suc (suc (suc zero))))))))))) h = refl
hex_digit-IsSafe (suc (suc (suc (suc (suc (suc (suc (suc (suc (suc (suc (suc zero)))))))))))) h =
    refl
hex_digit-IsSafe (suc (suc (suc (suc (suc (suc (suc (suc (suc (suc (suc (suc (suc zero)))))))))))))
      h =
    refl
hex_digit-IsSafe
      (suc (suc (suc (suc (suc (suc (suc (suc (suc (suc (suc (suc (suc (suc zero)))))))))))))) h =
    refl
hex_digit-IsSafe
      (suc (suc (suc (suc (suc (suc (suc (suc (suc (suc (suc (suc (suc (suc (suc zero)))))))))))))))
      h =
    refl
hex_digit-IsSafe
      (suc
        (suc (suc (suc (suc (suc (suc (suc (suc (suc (suc (suc (suc (suc (suc (suc n))))))))))))))))
      h =
    absurd (omega (arith, h))

append-IsSafe : (s t : String) → IsSafe s → IsSafe t → IsSafe (s ++ t)
append-IsSafe [] t h k = subst IsSafe (sym (nil-append t)) k
append-IsSafe (c ∷ s) t (h, hs) k =
    subst IsSafe (sym (cons-append c s t)) (h, append-IsSafe s t hs k)

escape_bytes-IsSafe : (bs : List ℕ) → All (λ b. b < 256) bs → IsSafe (escape_bytes bs)
unfolding escape_bytes
escape_bytes-IsSafe List.[] h = tt
escape_bytes-IsSafe (List.◌∷◌ b bs) (h, hs) = (
  refl,
  (
    hex_digit-IsSafe (b / 16) (omega (arith, h)),
    (hex_digit-IsSafe (b % 16) (omega arith), escape_bytes-IsSafe bs hs),
  ),
)

unreserved_is_safe : (n : ℕ) → is_unreserved n ≡ true → is_safe n ≡ true
unreserved_is_safe n h = rw h refl

escape_char-IsSafe : (c : Char) → IsSafe (escape_char c)
unfolding escape_char
escape_char-IsSafe c = elim (Bool-cases (is_unreserved (code c))) [
  | inl u ↦ rw u (unreserved_is_safe (code c) u, tt)
  | inr u ↦ elim (Bool-cases (code c =ℕ b' ')) [
    | inl e ↦ rw (u, e) (refl, tt)
    | inr e ↦ rw (u, e) (escape_bytes-IsSafe (utf8 (code c)) (utf8_lt (code c) (code_lt c)))
  ]
]

pub query_escape-IsSafe : (s : String) → IsSafe (query_escape s)
unfolding query_escape
query_escape-IsSafe [] = tt
query_escape-IsSafe (c ∷ s) =
    append-IsSafe (escape_char c) (query_escape s) (escape_char-IsSafe c) (query_escape-IsSafe s)

-- The text before the first such character, and the text behind it.
unfoldable pub cut : ℕ → String → String × String
cut sep [] = ("", "")
cut sep (c ∷ s) =
    let (before, behind) = cut sep s in if code c =ℕ sep then ("", s) else (c ∷ before, behind)

module _ (sep : Char) (apart : (n : ℕ) → is_safe n ≡ true → (n =ℕ code sep) ≡ false) where
  cut_here : (t : String) → cut (code sep) (sep ∷ t) ≡ ("", t)
  unfolding cut
  cut_here t = ground arith

  cut_later :
      (c : Char) (s before behind : String)
      → (code c =ℕ code sep) ≡ false
      → cut (code sep) s ≡ (before, behind)
      → cut (code sep) (c ∷ s) ≡ (c ∷ before, behind)
  unfolding cut
  cut_later c s before behind h e = rw (h, e) refl

  pub cut-IsSafe : (s t : String) → IsSafe s → cut (code sep) (s ++ (sep ∷ t)) ≡ (s, t)
  cut-IsSafe [] t h = ap (cut (code sep)) (nil-append (sep ∷ t)) ∙ cut_here t
  cut-IsSafe (c ∷ s) t (h, hs) =
      ap (cut (code sep)) (cons-append c s (sep ∷ t))
      ∙ cut_later c (s ++ (sep ∷ t)) s t (apart (code c) h) (cut-IsSafe s t hs)
