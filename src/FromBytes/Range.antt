-- ===== src/FromBytes/Range.antt =====
-- What the unsigned parsers accept, and that the loop without range checks never wraps around.
use coseva.Prelude.{
  ℕ, zero, suc, ◌*◌, ◌/◌, ◌^◌, ◌≤◌, true, false, Bool, [], ◌∷◌, ◌≡◌, ◌≢◌, ◌↔◌, refl, sym, ◌∙◌,
  subst, ltb, leb, ◌==◌, if◌then◌else◌, Bytes, length, All, IsByte, Bool-cases, inl, inr, arith,
}
use native.Mathlib.Nat.{pow-suc, pow-le-pow_right}
use coseva.Error.{ErrorKind, ok, err}
use coseva.FromBytes.{
  always_fits, log_loop, strip_plus, fast_loop, checked_loop, parse_digits, parse_unsigned,
}
use coseva.FromBytes.Loops.{IsDigit, decimal, fast-checked, accepts_iff, ok_or_err}

log_small : (fuel n : ℕ) → ltb n 10 ≡ true → log_loop (suc fuel) n ≡ 0
unfolding log_loop
log_small fuel n e = rw (e, log_loop)

log_more : (fuel n : ℕ) → ltb n 10 ≡ false → log_loop (suc fuel) n ≡ suc (log_loop fuel (n / 10))
unfolding log_loop
log_more fuel n e = rw (e, log_loop)

ten_times : (power power' n : ℕ) → power' ≡ power * 10 → power ≤ n / 10 → power' ≤ n
ten_times power power' n e h = omega arith

log_below : (fuel n : ℕ) → 1 ≤ n → n ≤ fuel → 10 ^ log_loop fuel n ≤ n
log_below zero n p q = absurd (omega arith)
log_below (suc fuel) n p q = elim (Bool-cases (ltb n 10)) [
  | inl e ↦ subst (λ t. 10 ^ t ≤ n) (sym (log_small fuel n e)) p
  | inr e ↦
      let big : 1 ≤ n / 10 = ground arith in
      let later = log_below fuel (n / 10) big (omega arith) in
      subst (λ t. 10 ^ t ≤ n) (sym (log_more fuel n e))
        (ten_times (10 ^ log_loop fuel (n / 10)) _ n (pow-suc 10 (log_loop fuel (n / 10))) later)
]

fits_always : (largest : ℕ) → 1 ≤ largest → 10 ^ always_fits largest ≤ largest
unfolding always_fits
fits_always largest h = log_below largest largest h (omega arith)

parse-fast :
    (largest : ℕ) (byte : ℕ) (rest : Bytes)
    → leb (length (byte ∷ rest)) (always_fits largest) ≡ true
    → parse_digits largest (byte ∷ rest) ≡ fast_loop largest (byte ∷ rest) 0
parse-fast largest byte rest e = unfold parse_digits in rw (e, parse_digits)

parse-checked :
    (largest : ℕ) (byte : ℕ) (rest : Bytes)
    → 1 ≤ largest
    → parse_digits largest (byte ∷ rest) ≡ checked_loop largest (byte ∷ rest) 0
parse-checked largest byte rest l =
    elim (Bool-cases (leb (length (byte ∷ rest)) (always_fits largest))) [
      | inl e ↦
          let short : length (byte ∷ rest) ≤ always_fits largest = ground arith in
          let power = pow-le-pow_right {n = 10} (omega arith) short in
          parse-fast largest byte rest e
          ∙ fast-checked largest (byte ∷ rest) 0 (omega (arith, power, fits_always largest l))
      | inr e ↦ unfold parse_digits in rw (e, parse_digits)
    ]

empty_refused : (largest : ℕ) → err ErrorKind.empty_field ≡ parse_digits largest []
unfolding parse_digits
empty_refused largest = refl

digits_iff :
    (largest n : ℕ) (digits : Bytes)
    → 1 ≤ largest
    → All IsByte digits
    → (parse_digits largest digits ≡ ok n)
      ↔ (digits ≢ []) × All IsDigit digits × (decimal digits 0 ≡ n) × (n ≤ largest)
digits_iff largest n [] l h =
    (λ q. absurd (ok_or_err (empty_refused largest ∙ q)), λ p. absurd (p.0 refl))
digits_iff largest n (byte ∷ rest) l h =
    let same = parse-checked largest byte rest l in
    let accepts = accepts_iff largest (byte ∷ rest) 0 n (omega arith) h in
    (
      λ q. let p = accepts.0 (sym same ∙ q) in ((λ e. cc), p.0, p.1, p.2),
      λ p. same ∙ accepts.1 (p.1, p.2, p.3),
    )

either-bytes :
    (b : Bool) (xs ys : Bytes) → All IsByte xs → All IsByte ys → All IsByte (if b then xs else ys)
either-bytes true xs ys h h' = h
either-bytes false xs ys h h' = h'

strip_plus-bytes : (bytes : Bytes) → All IsByte bytes → All IsByte (strip_plus bytes)
strip_plus-bytes [] h = tt
strip_plus-bytes (byte ∷ rest) h = either-bytes (byte == b'+') rest (byte ∷ rest) h.1 h

-- A field parses to a number exactly when, behind one plus sign at most, it is digits, at least one,
-- that spell that number, and the number is in the type's range; the loop without range checks,
-- which short fields take, accepts and returns the same.
pub parse_unsigned_iff :
    (largest n : ℕ) (bytes : Bytes)
    → 1 ≤ largest
    → All IsByte bytes
    → (parse_unsigned largest bytes ≡ ok n)
      ↔ (strip_plus bytes ≢ [])
        × All IsDigit (strip_plus bytes)
        × (decimal (strip_plus bytes) 0 ≡ n)
        × (n ≤ largest)
parse_unsigned_iff largest n bytes l h =
    unfold parse_unsigned in digits_iff largest n (strip_plus bytes) l (strip_plus-bytes bytes h)
