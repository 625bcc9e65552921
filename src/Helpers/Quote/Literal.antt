-- ===== src/Helpers/Quote/Literal.antt =====
-- How the server reads the quoted literals of postgresql/helpers.go back: an escape string, or a
-- text under `standard_conforming_strings`.
use Prim.Native.Char.{Char, char, code}
use Prim.Native.String.{[], ◌∷◌, ◌++◌}
use text.Mathlib.TextLemmas.{nil-append, cons-append}
use text.Mathlib.TextEquality.{Char-path}
use terraform_provider_postg.Base.{
  String, Bool, Bool-cases, true, false, if◌then◌else◌, ◌=ℕ◌, ◌≡◌, refl, ap, ◌∙◌, sym, arith,
  Option, none, some, inl, inr, ◌&&◌,
}
use terraform_provider_postg.Text.{replace_char}
use terraform_provider_postg.Helpers.Quote.{pq_quote_literal}

pub data Mode : Type 0 where
  plain after_quote after_backslash : Mode

abbrev pub put_front : Char → Option String → Option String
put_front c none = none
put_front c (some s) = some (c ∷ s)

-- The text between the quotes of a literal. A quote is written twice; in an escape string a
-- backslash is too, and the other escapes are no part of what `pqQuoteLiteral` writes.
unfoldable pub read_literal : Bool → Mode → String → Option String
read_literal escapes plain [] = some ""
read_literal escapes after_quote [] = none
read_literal escapes after_backslash [] = none
read_literal escapes plain (c ∷ s) =
    let quoted = read_literal escapes after_quote s in
    let escaped = read_literal escapes after_backslash s in
    let rest = read_literal escapes plain s in
    if code c =ℕ b'\''
    then quoted
    else if escapes && code c =ℕ b'\\'
    then escaped
    else put_front c rest
read_literal escapes after_quote (c ∷ s) =
    let rest = read_literal escapes plain s in if code c =ℕ b'\'' then put_front c rest else none
read_literal escapes after_backslash (c ∷ s) =
    let rest = read_literal escapes plain s in if code c =ℕ b'\\' then put_front c rest else none

abbrev pub read_escape_string : String → Option String
read_escape_string = read_literal true plain

abbrev pub read_standard_string : String → Option String
read_standard_string = read_literal false plain

abbrev quote : Char
quote = char b'\'' tt

abbrev backslash : Char
backslash = char b'\\' tt

two-append : (a : Char) (t : String) → (a ∷ (a ∷ [])) ++ t ≡ a ∷ (a ∷ t)
two-append a t = rw (cons-append, cons-append, nil-append) refl

one-append : (a : Char) (t : String) → (a ∷ []) ++ t ≡ a ∷ t
one-append a t = rw (cons-append, nil-append) refl

kept :
    (c : Char) (t : String)
    → (code c =ℕ b'\'') ≡ false
    → replace_char b'\'' "''" (c ∷ t) ≡ c ∷ replace_char b'\'' "''" t
unfolding replace_char
kept c t e = rw e (one-append c _)

doubled :
    (c : Char) (t : String)
    → replace_char b'\'' "''" (c ∷ t) ≡ (
        if code c =ℕ b'\''
        then quote ∷ (quote ∷ replace_char b'\'' "''" t)
        else c ∷ replace_char b'\'' "''" t)
unfolding replace_char
doubled c t = elim (Bool-cases (code c =ℕ b'\'')) [
  | inl e ↦ rw e (two-append quote _)
  | inr e ↦ rw e (one-append c _)
]

-- What `pqQuoteLiteral` does to each character.
quoted_front :
    (c : Char) (s : String)
    → pq_quote_literal (c ∷ s) ≡ (
        if code c =ℕ b'\\'
        then backslash ∷ (backslash ∷ pq_quote_literal s)
        else if code c =ℕ b'\''
        then quote ∷ (quote ∷ pq_quote_literal s)
        else c ∷ pq_quote_literal s)
unfolding pq_quote_literal replace_char
quoted_front c s = elim (Bool-cases (code c =ℕ b'\\')) [
  | inl e ↦ rw e (
      ap (replace_char b'\'' "''") (two-append backslash (replace_char b'\\' "\\\\" s))
      ∙ kept backslash (backslash ∷ replace_char b'\\' "\\\\" s) refl
      ∙ ap (λ t. backslash ∷ t) (kept backslash (replace_char b'\\' "\\\\" s) refl))
  | inr e ↦
      rw e (ap (replace_char b'\'' "''") (one-append c (replace_char b'\\' "\\\\" s)) ∙ doubled c _)
]

char_of : (c d : Char) → (code c =ℕ code d) ≡ true → d ≡ c
char_of c d e = Char-path d c (ground arith)

quoted_nil : (escapes : Bool) → read_literal escapes plain (pq_quote_literal []) ≡ some []
unfolding read_literal pq_quote_literal replace_char
quoted_nil escapes = refl

read-plain :
    (escapes : Bool) (c : Char) (t : String)
    → (code c =ℕ b'\'') ≡ false
    → (escapes && code c =ℕ b'\\') ≡ false
    → read_literal escapes plain (c ∷ t) ≡ put_front c (read_literal escapes plain t)
unfolding read_literal
read-plain escapes c t e f = rw (e, f) refl

-- Every text quoted by `pqQuoteLiteral` and read back as an escape string is the text itself.
pub read_escape_string-pq_quote_literal :
    (s : String) → read_escape_string (pq_quote_literal s) ≡ some s
unfolding read_literal
read_escape_string-pq_quote_literal [] = quoted_nil true
read_escape_string-pq_quote_literal (c ∷ s) =
    let rest = read_escape_string-pq_quote_literal s in
    ap read_escape_string (quoted_front c s) ∙ elim (Bool-cases (code c =ℕ b'\\')) [
      | inl e ↦ rw (e, rest) (ap (λ d. some (d ∷ s)) (char_of c backslash e))
      | inr e ↦ elim (Bool-cases (code c =ℕ b'\'')) [
        | inl f ↦ rw (e, f, rest) (ap (λ d. some (d ∷ s)) (char_of c quote f))
        | inr f ↦ rw (e, f) (read-plain true c (pq_quote_literal s) f e ∙ rw rest refl)
      ]
    ]

-- Every text quoted by `pqQuoteLiteral` and read under `standard_conforming_strings` is the text
-- with every backslash doubled.
pub read_standard_string-pq_quote_literal :
    (s : String) → read_standard_string (pq_quote_literal s) ≡ some (replace_char b'\\' "\\\\" s)
unfolding read_literal replace_char
read_standard_string-pq_quote_literal [] = quoted_nil false
read_standard_string-pq_quote_literal (c ∷ s) =
    let rest = read_standard_string-pq_quote_literal s in
    ap read_standard_string (quoted_front c s) ∙ elim (Bool-cases (code c =ℕ b'\\')) [
      | inl e ↦ rw (e, rest) (ap some (sym (two-append backslash _)))
      | inr e ↦ elim (Bool-cases (code c =ℕ b'\'')) [
        | inl f ↦
            rw (e, f, rest)
              (ap (λ d. some (d ∷ replace_char b'\\' "\\\\" s)) (char_of c quote f)
                ∙ ap some (sym (one-append c _)))
        | inr f ↦
            rw (e, f)
              (read-plain false c (pq_quote_literal s) f refl
                ∙ rw rest (ap some (sym (one-append c _))))
      ]
    ]
