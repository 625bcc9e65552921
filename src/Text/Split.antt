-- ===== src/Text/Split.antt =====
-- Laws of splitting a text at a character and joining the parts.
use Prim.Native.Char.{Char, char, code}
use Prim.Native.String.{[], ◌∷◌, ◌++◌}
use text.Mathlib.TextLemmas.{nil-append, cons-append}
use terraform_provider_postg.Base.{
  ℕ, String, List, if◌then◌else◌, ◌=ℕ◌, ◌≡◌, refl, ap, ◌∙◌, arith, length, ◌+◌, suc, ◌↔◌,
}
use terraform_provider_postg.Text.{split_char, push_front}

-- How often a character stands in a text.
pub count_char : ℕ → String → ℕ
count_char sep [] = 0
count_char sep (c ∷ s) = let rest = count_char sep s in if code c =ℕ sep then suc rest else rest

length-push_front :
    (c : Char) (ps : List String) (n : ℕ) → length ps ≡ suc n → length (push_front c ps) ≡ suc n
length-push_front c List.[] n h = ground arith
length-push_front c (List.◌∷◌ p ps) n h = h

pub length-split : (sep : ℕ) (s : String) → length (split_char sep s) ≡ suc (count_char sep s)
unfolding split_char count_char
length-split sep [] = refl
length-split sep (c ∷ s) =
    ground (arith, length-split sep s, length-push_front c (split_char sep s) (count_char sep s))

count-append :
    (sep : ℕ) (s t : String) → count_char sep (s ++ t) ≡ count_char sep s + count_char sep t
unfolding count_char
count-append sep [] t = rw nil-append (omega arith)
count-append sep (c ∷ s) t = rw cons-append (ground (arith, count-append sep s t))

split-free : (sep : ℕ) (s : String) → count_char sep s ≡ 0 → split_char sep s ≡ List.◌∷◌ s List.[]
unfolding split_char count_char
split-free sep [] h = refl
split-free sep (c ∷ s) h = ground (arith, split-free sep s)

split-front :
    (sep : ℕ) (s : String) (p : Char) (t : String)
    → code p ≡ sep
    → count_char sep s ≡ 0
    → split_char sep (s ++ (p ∷ t)) ≡ List.◌∷◌ s (split_char sep t)
unfolding split_char count_char
split-front sep [] p t e h = rw nil-append (ground arith)
split-front sep (c ∷ s) p t e h = rw cons-append (ground (arith, split-front sep s p t e))

one_dot : count_char b'.' "." ≡ 1
unfolding count_char
one_dot = refl

abbrev dot : Char
dot = char b'.' tt

dot-append : (b : String) → "." ++ b ≡ dot ∷ b
dot-append b = cons-append dot [] b ∙ ap (λ s. dot ∷ s) (nil-append b)

split-at_dot :
    (a b : String)
    → count_char b'.' a ≡ 0
    → split_char b'.' (a ++ ("." ++ b)) ≡ List.◌∷◌ a (split_char b'.' b)
split-at_dot a b h =
    ap (λ s. split_char b'.' (a ++ s)) (dot-append b) ∙ split-front b'.' a dot b refl h

-- A text of two parts is split into them exactly if neither holds the separator.
pub split-two :
    (a b : String)
    → (split_char b'.' (a ++ ("." ++ b)) ≡ List.◌∷◌ a (List.◌∷◌ b List.[]))
      ↔ ((count_char b'.' a ≡ 0) × (count_char b'.' b ≡ 0))
split-two a b = (
  (λ e.
      let n = length-split b'.' (a ++ ("." ++ b)) in
      let m = count-append b'.' a ("." ++ b) in
      let k = count-append b'.' "." b in
      let sep : count_char b'.' "." ≡ 1 = one_dot in
      let two = ap length e in (omega arith, omega arith)),
  λ (ha, hb). split-at_dot a b ha ∙ ap (List.◌∷◌ a) (split-free b'.' b hb),
)
