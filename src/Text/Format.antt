-- ===== src/Text/Format.antt =====
-- `strconv.Quote` of Go, which is the verb %q of fmt, over native texts.
use Prim.Native.Char.{Char, code}
use Prim.Native.Nat.{◌/◌, ◌%◌}
use Prim.Native.String.{[], ◌∷◌, ◌++◌}
use terraform_provider_postg.Base.{ℕ, zero, suc, String, Bool, if◌then◌else◌, ltb, ◌=ℕ◌, ◌||◌}
use terraform_provider_postg.Text.Escape.{hex_digit}

-- A digit of "0123456789abcdef".
lower_hex_digit : ℕ → String
lower_hex_digit n =
    if n =ℕ 10
    then "a"
    else if n =ℕ 11
    then "b"
    else if n =ℕ 12
    then "c"
    else if n =ℕ 13
    then "d"
    else if n =ℕ 14
    then "e"
    else if n =ℕ 15
    then "f"
    else hex_digit n ∷ []

-- The last digits of a number.
hex_digits : (digits : ℕ) → ℕ → String
unfolding lower_hex_digit
hex_digits zero n = ""
hex_digits (suc digits) n = hex_digits digits (n / 16) ++ lower_hex_digit (n % 16)

-- A character that is not printable; the surrogates are no code points of a text.
escaped : ℕ → String
unfolding hex_digits
escaped n =
    if n =ℕ 7
    then "\\a"
    else if n =ℕ 8
    then "\\b"
    else if n =ℕ 12
    then "\\f"
    else if n =ℕ 10
    then "\\n"
    else if n =ℕ 13
    then "\\r"
    else if n =ℕ 9
    then "\\t"
    else if n =ℕ 11
    then "\\v"
    else if ltb n 32 || (n =ℕ 127)
    then "\\x" ++ hex_digits 2 n
    else if ltb n 65536
    then "\\u" ++ hex_digits 4 n
    else "\\U" ++ hex_digits 8 n

quoted_char : (is_print : ℕ → Bool) → Char → String
unfolding escaped
quoted_char is_print c =
    if (code c =ℕ b'"') || (code c =ℕ b'\\')
    then "\\" ++ (c ∷ [])
    else if is_print (code c)
    then c ∷ []
    else escaped (code c)

quoted_chars : (is_print : ℕ → Bool) → String → String
unfolding quoted_char
quoted_chars is_print [] = ""
quoted_chars is_print (c ∷ s) = quoted_char is_print c ++ quoted_chars is_print s

-- `is_print` is `strconv.IsPrint`, a table of Go's.
unfoldable pub format_quoted : (is_print : ℕ → Bool) → String → String
unfolding quoted_chars
format_quoted is_print s = "\"" ++ (quoted_chars is_print s ++ "\"")
