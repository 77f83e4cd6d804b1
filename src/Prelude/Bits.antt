-- ===== src/Prelude/Bits.antt =====
-- Bitwise operations at variables: one law for the lowest digit, one to cut a number at `2 ^ k`,
-- and one for the size of the result, for every operation that works digit by digit.
use Prim.Native.Nat.{
  ℕ, zero, suc, ◌+◌, ◌*◌, ◌/◌, ◌%◌, ◌^◌, ◌≤◌, ◌<◌, min, max, bit_and, bit_or, bit_xor, digits,
  differ, bit_and-bitwise, bit_or-bitwise, bit_xor-bitwise,
}
use mathlib.Core.Path.{◌≡◌, refl, ap, ap₂, sym, ◌∙◌}
use native.Mathlib.Nat.{pow-suc}
use native.Mathlib.Omega.{arith}

-- what an operation makes of the lowest digits, in front of what it makes of the others
abbrev pub StepLaw : (ℕ → ℕ → ℕ) → (ℕ → ℕ → ℕ) → Type 0
StepLaw op digit = (x y : ℕ) → op x y ≡ op (x / 2) (y / 2) * 2 + digit (x % 2) (y % 2)

-- `digits` needs no more fuel than its first number, and its equation holds at 0 too.
module _ (z : ℕ → ℕ) (f : ℕ → ℕ → ℕ) (z_step : (b : ℕ) → z b ≡ z (b / 2) * 2 + f 0 (b % 2)) where
  more_fuel :
      (fuel fuel' x y : ℕ) → x ≤ fuel → x ≤ fuel' → digits z f fuel x y ≡ digits z f fuel' x y
  more_fuel zero zero x y _ _ = refl
  more_fuel zero (suc fuel') zero y _ _ = refl
  more_fuel zero (suc fuel') (suc x) y h _ = absurd (omega arith)
  more_fuel (suc fuel) zero zero y _ _ = refl
  more_fuel (suc fuel) zero (suc x) y _ h = absurd (omega arith)
  more_fuel (suc fuel) (suc fuel') zero y _ _ = refl
  more_fuel (suc fuel) (suc fuel') (suc x) y h h' =
      let later = more_fuel fuel fuel' (suc x / 2) (y / 2) (omega arith) (omega arith) in
      ap (λ t. t * 2 + f (suc x % 2) (y % 2)) later

  digits_step : StepLaw (λ x y. digits z f x x y) f
  digits_step zero y = z_step y
  digits_step (suc x) y =
      let later = more_fuel x (suc x / 2) (suc x / 2) (y / 2) (omega arith) (omega arith) in
      ap (λ t. t * 2 + f (suc x % 2) (y % 2)) later

step_by :
    (op digit op' : ℕ → ℕ → ℕ)
    → ((x y : ℕ) → op x y ≡ op' x y)
    → StepLaw op' digit
    → StepLaw op digit
step_by op digit op' same law x y =
    same x y ∙ law x y ∙ ap (λ t. t * 2 + digit (x % 2) (y % 2)) (sym (same (x / 2) (y / 2)))

pub bit_and_step : StepLaw bit_and min
bit_and_step =
    step_by bit_and min _ bit_and-bitwise (digits_step (λ b. zero) min (λ b. omega arith))

pub bit_or_step : StepLaw bit_or max
bit_or_step = step_by bit_or max _ bit_or-bitwise (digits_step (λ b. b) max (λ b. omega arith))

pub bit_xor_step : StepLaw bit_xor differ
bit_xor_step =
    step_by bit_xor differ _ bit_xor-bitwise (digits_step (λ b. b) differ (λ b. omega arith))

pub differ-bound : (x y : ℕ) → x < 2 → y < 2 → differ x y < 2
differ-bound zero y p q = q
differ-bound (suc x) zero p q = p
differ-bound (suc x) (suc y) p q = differ-bound x y (omega arith) (omega arith)

-- An operation given digit by digit.
pub record Digitwise : Type 0 where
  pub op : ℕ → ℕ → ℕ
  pub digit : ℕ → ℕ → ℕ
  pub op_step : StepLaw op digit
  pub op_zero : op 0 0 ≡ 0
  pub digit_bound : (x y : ℕ) → x < 2 → y < 2 → digit x y < 2

abbrev pub and_digitwise : Digitwise
and_digitwise = record {
  op = bit_and;
  digit = min;
  op_step = bit_and_step;
  op_zero = refl;
  digit_bound = λ x y p q. omega arith;
}

abbrev pub or_digitwise : Digitwise
or_digitwise = record {
  op = bit_or;
  digit = max;
  op_step = bit_or_step;
  op_zero = refl;
  digit_bound = λ x y p q. omega arith;
}

abbrev pub xor_digitwise : Digitwise
xor_digitwise = record {
  op = bit_xor;
  digit = differ;
  op_step = bit_xor_step;
  op_zero = refl;
  digit_bound = differ-bound;
}

module _ (d : Digitwise) where
  open d use {op, digit, op_step, op_zero, digit_bound}

  pub op_bound : (k r s : ℕ) → r < 2 ^ k → s < 2 ^ k → op r s < 2 ^ k
  op_bound zero zero zero p q = rw op_zero p
  op_bound zero zero (suc s) p q = absurd (omega arith)
  op_bound zero (suc r) s p q = absurd (omega arith)
  op_bound (suc k) r s p q = omega (
    arith,
    pow-suc 2 k,
    op_step r s,
    op_bound k (r / 2) (s / 2) (omega (arith, pow-suc 2 k)) (omega (arith, pow-suc 2 k)),
    digit_bound (r % 2) (s % 2) (omega arith) (omega arith),
  )

  op_halves :
      (u v u' v' x y : ℕ)
      → u / 2 ≡ u'
      → v / 2 ≡ v'
      → u % 2 ≡ x
      → v % 2 ≡ y
      → op u v ≡ op u' v' * 2 + digit x y
  op_halves u v u' v' x y p q e f =
      op_step u v ∙ ap₂ ◌+◌ (ap (λ t. t * 2) (ap₂ op p q)) (ap₂ digit e f)

  -- The high parts and the low parts do not meet.
  pub op_split :
      (k a b r s : ℕ)
      → r < 2 ^ k
      → s < 2 ^ k
      → op (a * 2 ^ k + r) (b * 2 ^ k + s) ≡ op a b * 2 ^ k + op r s
  op_split zero a b zero zero p q =
      let ea : a * 2 ^ 0 + 0 ≡ a = omega arith in
      let eb : b * 2 ^ 0 + 0 ≡ b = omega arith in
      let e : op (a * 2 ^ 0 + 0) (b * 2 ^ 0 + 0) ≡ op a b = ap₂ op ea eb in
      omega (arith, e, op_zero)
  op_split zero a b zero (suc s) p q = absurd (omega arith)
  op_split zero a b (suc r) s p q = absurd (omega arith)
  op_split (suc k) a b r s p q =
      let ea = ap (λ (t : ℕ). a * t) (pow-suc 2 k) in
      let eb = ap (λ (t : ℕ). b * t) (pow-suc 2 k) in
      let u = a * 2 ^ suc k + r in
      let v = b * 2 ^ suc k + s in
      let h =
        op_halves u v (a * 2 ^ k + r / 2) (b * 2 ^ k + s / 2) (r % 2) (s % 2) (omega (arith, ea))
          (omega (arith, eb)) (omega (arith, ea)) (omega (arith, eb)) in
      omega (
        arith,
        h,
        op_step r s,
        op_split k a b (r / 2) (s / 2) (omega (arith, pow-suc 2 k)) (omega (arith, pow-suc 2 k)),
        ap (λ (t : ℕ). op a b * t) (pow-suc 2 k),
      )

bit_or-zero_fuel : (n x y : ℕ) → x + y ≤ n → bit_or x y ≡ 0 → (x ≡ 0) × (y ≡ 0)
bit_or-zero_fuel zero x y h e = omega arith
bit_or-zero_fuel (suc n) x y h e =
    let (p, q) =
      bit_or-zero_fuel n (x / 2) (y / 2) (omega arith) (omega (arith, bit_or_step x y)) in
    omega (arith, bit_or_step x y)

-- A union of masks is empty when each of them is.
pub bit_or-eq-zero : (x y : ℕ) → bit_or x y ≡ 0 → (x ≡ 0) × (y ≡ 0)
bit_or-eq-zero x y e = bit_or-zero_fuel (x + y) x y (omega arith) e

differ-eq-zero : (x y : ℕ) → differ x y ≡ 0 → x ≡ y
differ-eq-zero zero y e = sym e
differ-eq-zero (suc x) zero e = absurd (omega arith)
differ-eq-zero (suc x) (suc y) e = ap suc (differ-eq-zero x y e)

differ_self : (x : ℕ) → differ x x ≡ 0
differ_self zero = refl
differ_self (suc x) = differ_self x

bit_xor_fuel : (n x y : ℕ) → x + y ≤ n → bit_xor x y ≡ 0 → x ≡ y
bit_xor_fuel zero x y h e = omega arith
bit_xor_fuel (suc n) x y h e =
    let low = differ-eq-zero (x % 2) (y % 2) (omega (arith, bit_xor_step x y)) in
    let high = bit_xor_fuel n (x / 2) (y / 2) (omega arith) (omega (arith, bit_xor_step x y)) in
    omega arith

bit_xor_self_fuel : (n x : ℕ) → x ≤ n → bit_xor x x ≡ 0
bit_xor_self_fuel zero x h = let e : x ≡ 0 = omega arith in rw e refl
bit_xor_self_fuel (suc n) zero h = refl
bit_xor_self_fuel (suc n) (suc x) h = omega (
  arith,
  bit_xor_step (suc x) (suc x),
  bit_xor_self_fuel n (suc x / 2) (omega arith),
  differ_self (suc x % 2),
)

-- Two numbers differ in no digit exactly when they are the same.
pub bit_xor-eq-zero : (x y : ℕ) → bit_xor x y ≡ 0 → x ≡ y
bit_xor-eq-zero x y e = bit_xor_fuel (x + y) x y (omega arith) e

pub bit_xor_self : (x : ℕ) → bit_xor x x ≡ 0
bit_xor_self x = bit_xor_self_fuel x x (omega arith)
