-- ===== src/Text/Escape/Reading.antt =====
-- Reading back what `url.QueryEscape` wrote, as the user information of a URL is read.
use Prim.Native.Char.{Char, IsLt, char, code}
use Prim.Native.Nat.{Ordering, compare, ◌/◌, ◌%◌, ◌*◌}
use Prim.Native.String.{[], ◌∷◌, ◌++◌}
use text.Mathlib.TextLemmas.{nil-append, cons-append}
use terraform_provider_postg.Base.{
  All, Bool-cases, List, String, ap, arith, false, if◌then◌else◌, inl, inr, ltb, suc, zero, refl,
  true, ℕ, ◌+◌, ◌-◌, ◌=ℕ◌, ◌≡◌, ◌<◌, ◌∙◌,
}
use terraform_provider_postg.Text.Escape.{
  escape_bytes, escape_char, hex_digit, is_unreserved, query_escape, utf8,
}

-- Behind nothing, a percent sign, or a percent sign and a digit.
pub data Pending : Type 0 where
  plain percent : Pending
  half : ℕ → Pending

abbrev pub hex_value : ℕ → ℕ
hex_value n = if ltb n 65 then n - 48 else n - 55

abbrev pub append : List ℕ → List ℕ → List ℕ
append List.[] ys = ys
append (List.◌∷◌ x xs) ys = List.◌∷◌ x (append xs ys)

-- The bytes that an escaped text stands for. A plus sign stands for itself.
unfoldable pub unescape : Pending → String → List ℕ
unescape pending [] = List.[]
unescape plain (c ∷ s) =
    let escaped = unescape percent s in
    let unescaped = append (utf8 (code c)) (unescape plain s) in
    if code c =ℕ b'%' then escaped else unescaped
unescape percent (c ∷ s) = unescape (half (hex_value (code c))) s
unescape (half n) (c ∷ s) = List.◌∷◌ (16 * n + hex_value (code c)) (unescape plain s)

-- The bytes of a text in UTF-8, with a plus sign for every space.
unfoldable pub bytes_with_plus : String → List ℕ
bytes_with_plus [] = List.[]
bytes_with_plus (c ∷ s) =
    append (if code c =ℕ b' ' then List.◌∷◌ b'+' List.[] else utf8 (code c)) (bytes_with_plus s)

hex_value-hex_digit : (n : ℕ) → n < 16 → hex_value (code (hex_digit n)) ≡ n
unfolding hex_digit
hex_value-hex_digit zero h = refl
hex_value-hex_digit (suc zero) h = refl
hex_value-hex_digit (suc (suc zero)) h = refl
hex_value-hex_digit (suc (suc (suc zero))) h = refl
hex_value-hex_digit (suc (suc (suc (suc zero)))) h = refl
hex_value-hex_digit (suc (suc (suc (suc (suc zero))))) h = refl
hex_value-hex_digit (suc (suc (suc (suc (suc (suc zero)))))) h = refl
hex_value-hex_digit (suc (suc (suc (suc (suc (suc (suc zero))))))) h = refl
hex_value-hex_digit (suc (suc (suc (suc (suc (suc (suc (suc zero)))))))) h = refl
hex_value-hex_digit (suc (suc (suc (suc (suc (suc (suc (suc (suc zero))))))))) h = refl
hex_value-hex_digit (suc (suc (suc (suc (suc (suc (suc (suc (suc (suc zero)))))))))) h = refl
hex_value-hex_digit (suc (suc (suc (suc (suc (suc (suc (suc (suc (suc (suc zero))))))))))) h = refl
hex_value-hex_digit (suc (suc (suc (suc (suc (suc (suc (suc (suc (suc (suc (suc zero)))))))))))) h =
    refl
hex_value-hex_digit
      (suc (suc (suc (suc (suc (suc (suc (suc (suc (suc (suc (suc (suc zero))))))))))))) h =
    refl
hex_value-hex_digit
      (suc (suc (suc (suc (suc (suc (suc (suc (suc (suc (suc (suc (suc (suc zero)))))))))))))) h =
    refl
hex_value-hex_digit
      (suc (suc (suc (suc (suc (suc (suc (suc (suc (suc (suc (suc (suc (suc (suc zero)))))))))))))))
      h =
    refl
hex_value-hex_digit
      (suc
        (suc (suc (suc (suc (suc (suc (suc (suc (suc (suc (suc (suc (suc (suc (suc n))))))))))))))))
      h =
    absurd (omega (arith, h))

pub utf8_lt : (n : ℕ) → n < 1114112 → All (λ b. b < 256) (utf8 n)
unfolding utf8
utf8_lt n h = ground (arith, h)

-- `IsScalar n`, by the comparisons of `n` with the bounds of the surrogates and of all characters.
abbrev UpperPart : Ordering → Ordering → Type 0
UpperPart Ordering.lt o = IsLt o
UpperPart Ordering.eq o = ⊥
UpperPart Ordering.gt o = ⊥

abbrev ScalarPart : Ordering → Ordering → Ordering → Type 0
ScalarPart Ordering.lt o q = Unit
ScalarPart Ordering.eq o q = UpperPart o q
ScalarPart Ordering.gt o q = UpperPart o q

upper_lt : (n : ℕ) (o q : Ordering) → compare n 1114112 ≡ q → UpperPart o q → n < 1114112
upper_lt n Ordering.lt Ordering.lt e h = ground (arith, e)
upper_lt n Ordering.lt Ordering.eq e h = absurd h
upper_lt n Ordering.lt Ordering.gt e h = absurd h
upper_lt n Ordering.eq q e h = absurd h
upper_lt n Ordering.gt q e h = absurd h

scalar_lt :
    (n : ℕ) (p o q : Ordering)
    → compare n 55296 ≡ p
    → compare n 1114112 ≡ q
    → ScalarPart p o q
    → n < 1114112
scalar_lt n Ordering.lt o q d e h = ground (arith, d)
scalar_lt n Ordering.eq o q d e h = upper_lt n o q e h
scalar_lt n Ordering.gt o q d e h = upper_lt n o q e h

pub code_lt : (c : Char) → code c < 1114112
code_lt (char n p) = scalar_lt n (compare n 55296) (compare 57343 n) (compare n 1114112) refl refl p

unescape-plain :
    (c : Char) (t : String)
    → (code c =ℕ b'%') ≡ false
    → unescape plain (c ∷ t) ≡ append (utf8 (code c)) (unescape plain t)
unfolding unescape
unescape-plain c t h = rw h refl

three : (a b c : Char) (x t : String) → (a ∷ (b ∷ (c ∷ x))) ++ t ≡ a ∷ (b ∷ (c ∷ (x ++ t)))
three a b c x t =
    cons-append a (b ∷ (c ∷ x)) t
    ∙ ap (λ r. a ∷ r) (cons-append b (c ∷ x) t ∙ ap (λ r. b ∷ r) (cons-append c x t))

byte :
    (a b : Char) (t : String)
    → unescape plain ("%" ∷ (a ∷ (b ∷ t)))
      ≡ List.◌∷◌ (16 * hex_value (code a) + hex_value (code b)) (unescape plain t)
unfolding unescape
byte a b t = refl

joined :
    (b : ℕ)
    → b < 256
    → 16 * hex_value (code (hex_digit (b / 16))) + hex_value (code (hex_digit (b % 16))) ≡ b
joined b h =
    rw (hex_value-hex_digit (b / 16) (omega (arith, h)), hex_value-hex_digit (b % 16) (omega arith))
      (omega arith)

unescape-escape_bytes :
    (bs : List ℕ) (t : String)
    → All (λ b. b < 256) bs
    → unescape plain (escape_bytes bs ++ t) ≡ append bs (unescape plain t)
unfolding escape_bytes
unescape-escape_bytes List.[] t h = ap (unescape plain) (nil-append t)
unescape-escape_bytes (List.◌∷◌ b bs) t (h, hs) =
    ap (unescape plain) (three "%" (hex_digit (b / 16)) (hex_digit (b % 16)) (escape_bytes bs) t)
    ∙ byte (hex_digit (b / 16)) (hex_digit (b % 16)) (escape_bytes bs ++ t)
    ∙ ap (λ x. List.◌∷◌ x (unescape plain (escape_bytes bs ++ t))) (joined b h)
    ∙ ap (λ l. List.◌∷◌ b l) (unescape-escape_bytes bs t hs)

not_space : (n : ℕ) → is_unreserved n ≡ true → (n =ℕ b' ') ≡ false
not_space n h = ground (arith, h)

not_percent : (n : ℕ) → is_unreserved n ≡ true → (n =ℕ b'%') ≡ false
not_percent n h = ground (arith, h)

plus : (t : String) → unescape plain ("+" ∷ t) ≡ List.◌∷◌ b'+' (unescape plain t)
unfolding unescape utf8
plus t = refl

unescape-escape_char :
    (c : Char) (t : String)
    → unescape plain (escape_char c ++ t)
      ≡ append (if code c =ℕ b' ' then List.◌∷◌ b'+' List.[] else utf8 (code c)) (unescape plain t)
unfolding escape_char
unescape-escape_char c t = elim (Bool-cases (is_unreserved (code c))) [
  | inl u ↦
      rw (u, not_space (code c) u)
        (ap (unescape plain) (cons-append c [] t ∙ ap (λ r. c ∷ r) (nil-append t))
          ∙ unescape-plain c t (not_percent (code c) u))
  | inr u ↦ elim (Bool-cases (code c =ℕ b' ')) [
    | inl e ↦
        rw (u, e)
          (ap (unescape plain) (cons-append "+" [] t ∙ ap (λ r. "+" ∷ r) (nil-append t)) ∙ plus t)
    | inr e ↦ rw (u, e) (unescape-escape_bytes (utf8 (code c)) t (utf8_lt (code c) (code_lt c)))
  ]
]

-- Every text, escaped and then read as the user information of a URL, gives its bytes in UTF-8, but
-- for the spaces, which come back as plus signs.
pub unescape-query_escape : (s : String) → unescape plain (query_escape s) ≡ bytes_with_plus s
unfolding query_escape bytes_with_plus unescape
unescape-query_escape [] = refl
unescape-query_escape (c ∷ s) =
    unescape-escape_char c (query_escape s)
    ∙ ap (append (if code c =ℕ b' ' then List.◌∷◌ b'+' List.[] else utf8 (code c)))
        (unescape-query_escape s)
