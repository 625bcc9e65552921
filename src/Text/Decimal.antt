-- ===== src/Text/Decimal.antt =====
-- `%d` and `strconv.Atoi`, on Go's 64-bit `int`.
pub mod Printing
use Prim.Native.Nat.{◌/◌, ◌%◌, ◌*◌, ◌^◌}
use Prim.Native.Char.{code}
use Prim.Native.String.{[], ◌∷◌, ◌++◌}
use terraform_provider_postg.Base.{
  Bool, Option, String, false, if◌then◌else◌, leb, ltb, none, some, suc, true, zero, ℕ, ◌&&◌, ◌+◌,
  ◌-◌, ◌=ℕ◌,
}

-- `negsuc n` is -(n + 1).
pub data ℤ : Type 0 where
  pos : ℕ → ℤ
  negsuc : ℕ → ℤ

unfoldable pub int_eq : ℤ → ℤ → Bool
int_eq (pos a) (pos b) = a =ℕ b
int_eq (negsuc a) (negsuc b) = a =ℕ b
int_eq (pos a) (negsuc b) = false
int_eq (negsuc a) (pos b) = false

-- the digit of a number below ten
unfoldable pub digit : ℕ → String
digit n =
    if n =ℕ 0
    then "0"
    else if n =ℕ 1
    then "1"
    else if n =ℕ 2
    then "2"
    else if n =ℕ 3
    then "3"
    else if n =ℕ 4
    then "4"
    else if n =ℕ 5
    then "5"
    else if n =ℕ 6
    then "6"
    else if n =ℕ 7
    then "7"
    else if n =ℕ 8
    then "8"
    else "9"

-- The digits of a number, with a bound on their count as fuel.
digits : ℕ → ℕ → String
unfolding digit
digits zero n = digit (n % 10)
digits (suc fuel) n =
    let rest = digits fuel (n / 10) ++ digit (n % 10) in if ltb n 10 then digit n else rest

-- A number has no more digits than its value and one.
unfoldable pub format_nat : ℕ → String
unfolding digits
format_nat n = digits n n

unfoldable pub format_int : ℤ → String
unfolding format_nat
format_int (pos n) = format_nat n
format_int (negsuc n) = "-" ++ format_nat (suc n)

-- the number that the digits spell behind `n`
scan_digits : String → ℕ → Option ℕ
scan_digits [] n = some n
scan_digits (c ∷ s) n =
    let rest = scan_digits s (n * 10 + (code c - b'0')) in
    if leb b'0' (code c) && leb (code c) b'9' then rest else none

-- digits, at least one
scan_number : String → Option ℕ
unfolding scan_digits
scan_number [] = none
scan_number (c ∷ s) = scan_digits (c ∷ s) 0

in_range : Bool → Option ℕ → Option ℤ
in_range negative none = none
in_range false (some n) = if ltb n (2 ^ 63) then some (pos n) else none
in_range true (some zero) = some (pos 0)
in_range true (some (suc n)) = if ltb n (2 ^ 63) then some (negsuc n) else none

-- strconv.Atoi; `none` for a syntax or a range error
unfoldable pub atoi : String → Option ℤ
unfolding in_range scan_number
atoi [] = none
atoi (c ∷ s) =
    if code c =ℕ b'-'
    then in_range true (scan_number s)
    else if code c =ℕ b'+'
    then in_range false (scan_number s)
    else in_range false (scan_number (c ∷ s))
