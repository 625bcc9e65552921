-- ===== src/Text/Escape.antt =====
-- `url.QueryEscape` of Go's net/url, over native texts.
pub mod Reading
pub mod Safe
use Prim.Native.Char.{Char, code}
use Prim.Native.Nat.{◌/◌, ◌%◌}
use Prim.Native.String.{[], ◌∷◌, ◌++◌}
use terraform_provider_postg.Base.{
  ℕ, String, Bool, List, if◌then◌else◌, ltb, leb, ◌+◌, ◌=ℕ◌, ◌&&◌, ◌||◌,
}

-- The bytes of a character in UTF-8.
unfoldable pub utf8 : ℕ → List ℕ
utf8 n =
    if ltb n 128
    then List.◌∷◌ n List.[]
    else if ltb n 2048
    then List.◌∷◌ (192 + n / 64) (List.◌∷◌ (128 + n % 64) List.[])
    else if ltb n 65536
    then List.◌∷◌ (224 + n / 4096)
        (List.◌∷◌ (128 + (n / 64) % 64) (List.◌∷◌ (128 + n % 64) List.[]))
    else List.◌∷◌ (240 + n / 262144) (
        List.◌∷◌ (128 + (n / 4096) % 64)
          (List.◌∷◌ (128 + (n / 64) % 64) (List.◌∷◌ (128 + n % 64) List.[])))

-- Letters, digits, and `-`, `_`, `.`, `~`.
abbrev pub is_unreserved : ℕ → Bool
is_unreserved n =
    (leb b'a' n && leb n b'z')
    || ((leb b'A' n && leb n b'Z')
        || ((leb b'0' n && leb n b'9')
            || ((n =ℕ b'-') || ((n =ℕ b'_') || ((n =ℕ b'.') || (n =ℕ b'~'))))))

unfoldable pub hex_digit : ℕ → Char
hex_digit n =
    if n =ℕ 0
    then "0"
    else if n =ℕ 1
    then "1"
    else if n =ℕ 2
    then "2"
    else if n =ℕ 3
    then "3"
    else if n =ℕ 4
    then "4"
    else if n =ℕ 5
    then "5"
    else if n =ℕ 6
    then "6"
    else if n =ℕ 7
    then "7"
    else if n =ℕ 8
    then "8"
    else if n =ℕ 9
    then "9"
    else if n =ℕ 10
    then "A"
    else if n =ℕ 11
    then "B"
    else if n =ℕ 12
    then "C"
    else if n =ℕ 13
    then "D"
    else if n =ℕ 14
    then "E"
    else "F"

unfoldable pub escape_bytes : List ℕ → String
unfolding hex_digit
escape_bytes List.[] = ""
escape_bytes (List.◌∷◌ b bs) = "%" ∷ (hex_digit (b / 16) ∷ (hex_digit (b % 16) ∷ escape_bytes bs))

unfoldable pub escape_char : Char → String
unfolding escape_bytes utf8
escape_char c =
    if is_unreserved (code c)
    then c ∷ []
    else if code c =ℕ b' '
    then "+"
    else escape_bytes (utf8 (code c))

unfoldable pub query_escape : String → String
unfolding escape_char
query_escape [] = ""
query_escape (c ∷ s) = escape_char c ++ query_escape s
