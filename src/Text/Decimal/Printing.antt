-- ===== src/Text/Decimal/Printing.antt =====
-- How `%d` writes the last digit.
use Prim.Native.Nat.{◌/◌, ◌%◌, ◌*◌}
use Prim.Native.String.{◌++◌}
use terraform_provider_postg.Base.{
  Bool-cases, ap, arith, inl, inr, refl, ltb, sym, ℕ, zero, suc, ◌+◌, ◌≡◌, ◌≤◌, ◌<◌, ◌∙◌, true,
  false,
}
use terraform_provider_postg.Text.Decimal.{digit, digits, format_nat}

small : (n : ℕ) → n < 10 → n % 10 ≡ n
small n h = omega (arith, h)

less : (n f : ℕ) → ltb n 10 ≡ false → n ≤ suc f → n / 10 ≤ f
less n f h k = ground (arith, h, k)

no_digits_left : (n : ℕ) → n ≤ 0 → ltb n 10 ≡ true
no_digits_left n h = ground (arith, h)

digits-zero : (g n : ℕ) → n ≤ 0 → digits (suc g) n ≡ digit (n % 10)
unfolding digits
digits-zero g n h = rw (no_digits_left n h) (ap digit (sym (small n (omega (arith, h)))))

digits-suc : (f n : ℕ) → ltb n 10 ≡ false → digits (suc f) n ≡ digits f (n / 10) ++ digit (n % 10)
unfolding digits
digits-suc f n e = rw e refl

-- More fuel than the number changes nothing.
digits-fuel : (f g n : ℕ) → n ≤ f → n ≤ g → digits f n ≡ digits g n
unfolding digits
digits-fuel zero zero n h k = refl
digits-fuel zero (suc g) n h k = sym (digits-zero g n h)
digits-fuel (suc f) zero n h k = digits-zero f n k
digits-fuel (suc f) (suc g) n h k = elim (Bool-cases (ltb n 10)) [
  | inl e ↦ rw e refl
  | inr e ↦
      rw e (ap (λ s. s ++ digit (n % 10)) (digits-fuel f g (n / 10) (less n f e h) (less n g e k)))
]

above_ten : (n d : ℕ) → 0 < n → ltb (n * 10 + d) 10 ≡ false
above_ten n d h = ground (arith, h)

pub format_nat-last : (n d : ℕ) → 0 < n → d < 10 → format_nat (n * 10 + d) ≡ format_nat n ++ digit d
unfolding format_nat
format_nat-last n d h k =
    let m : ℕ = n * 10 + d in
    let quotient : m / 10 ≡ n = omega (arith, k) in
    let remainder : m % 10 ≡ d = omega (arith, k) in
    digits-fuel m (suc m) m (omega arith) (omega arith)
    ∙ digits-suc m m (above_ten n d h)
    ∙ ap (λ q. digits m q ++ digit (m % 10)) quotient
    ∙ ap (λ r. digits m n ++ digit r) remainder
    ∙ ap (λ t. t ++ digit d) (digits-fuel m n n (omega arith) (omega arith))
