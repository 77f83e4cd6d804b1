-- ===== src/Emit/Numeric.antt =====
-- crates/coseva/src/emit.rs: `is_numeric`, a byte scan in front of the float parser.
use coseva.Prelude.{
  ℕ, Bool, true, false, [], ◌∷◌, ◌≡◌, ◌↔◌, ◌≢◌, Bool-cases, inl, inr, refl, sym, ◌∙◌, ◌&&◌, ◌||◌,
  ◌==◌, leb, not, if◌then◌else◌, Bytes, arith,
}

pub data NumericScan : Type 0 where
  numeric not_numeric fallback : NumericScan

abbrev pub is_digit : ℕ → Bool
is_digit b = leb b'0' b && leb b b'9'

-- `b'e' | b'E' | b'i' | … | b'Y'`: bytes of an exponent, of `inf`, `infinity` and `nan`
abbrev pub is_word_byte : ℕ → Bool
is_word_byte b =
    b == b'e'
    || b == b'E'
    || b == b'i'
    || b == b'I'
    || b == b'n'
    || b == b'N'
    || b == b'f'
    || b == b'F'
    || b == b'a'
    || b == b'A'
    || b == b'y'
    || b == b'Y'

-- the loop over the bytes behind the sign
scan_body : Bytes → Bool → Bool → NumericScan
scan_body [] seen_digit seen_dot = if seen_digit then numeric else not_numeric
scan_body (b ∷ rest) seen_digit seen_dot =
    let digit = scan_body rest true seen_dot in
    let dot = scan_body rest seen_digit true in
    if is_digit b
    then digit
    else if b == b'.' && not seen_dot
    then dot
    else if b == b'.' || is_word_byte b
    then fallback
    else not_numeric

abbrev pub is_sign : ℕ → Bool
is_sign b = b == b'+' || b == b'-'

abbrev pub strip_sign : Bytes → Bytes
strip_sign [] = []
strip_sign (b ∷ rest) = if is_sign b then rest else b ∷ rest

unfoldable pub scan_numeric : Bytes → NumericScan
unfolding scan_body
scan_numeric field = scan_body (strip_sign field) false false

-- `str::from_utf8(field)` and `parse::<f64>` of the standard library, as one test
unfoldable pub is_numeric : (Bytes → Bool) → Bytes → Bool
unfolding scan_numeric
is_numeric parses_f64 field = elim (scan_numeric field) [
  | numeric ↦ true
  | not_numeric ↦ false
  | fallback ↦ parses_f64 field
]

-- Digits with at most one point among them, a digit somewhere: the shape that the scan settles.
pub data IsDecimal : Bool → Bool → Bytes → Type 0 where
  end : {dot : Bool} → IsDecimal true dot []
  digit :
      {seen dot : Bool} {b : ℕ} {rest : Bytes}
      → is_digit b ≡ true
      → IsDecimal true dot rest
      → IsDecimal seen dot (b ∷ rest)
  point :
      {seen dot : Bool} {b : ℕ} {rest : Bytes}
      → dot ≡ false
      → b ≡ b'.'
      → IsDecimal seen true rest
      → IsDecimal seen dot (b ∷ rest)

step_digit :
    (b : ℕ) (rest : Bytes) (seen dot : Bool)
    → is_digit b ≡ true
    → scan_body (b ∷ rest) seen dot ≡ scan_body rest true dot
unfolding scan_body
step_digit b rest seen dot h = ground arith

step_point :
    (b : ℕ) (rest : Bytes) (seen dot : Bool)
    → is_digit b ≡ false
    → (b == b'.' && not dot) ≡ true
    → scan_body (b ∷ rest) seen dot ≡ scan_body rest seen true
unfolding scan_body
step_point b rest seen dot h k = ground arith

step_other :
    (b : ℕ) (rest : Bytes) (seen dot : Bool)
    → is_digit b ≡ false
    → (b == b'.' && not dot) ≡ false
    → scan_body (b ∷ rest) seen dot ≢ numeric
unfolding scan_body
step_other b rest seen dot h k = ground arith

scan_sound :
    (xs : Bytes) (seen dot : Bool) → scan_body xs seen dot ≡ numeric → IsDecimal seen dot xs
scan_sound [] true dot h = end
scan_sound [] false dot h = unfold scan_body in cc h
scan_sound (b ∷ rest) seen dot h = elim (Bool-cases (is_digit b)) [
  | inl d ↦ digit d (scan_sound rest true dot (sym (step_digit b rest seen dot d) ∙ h))
  | inr n ↦ elim (Bool-cases (b == b'.' && not dot)) [
    | inl p ↦
        point (ground arith) (ground arith)
          (scan_sound rest seen true (sym (step_point b rest seen dot n p) ∙ h))
    | inr o ↦ absurd (step_other b rest seen dot n o h)
  ]
]

scan_complete :
    {xs : Bytes} {seen dot : Bool} → IsDecimal seen dot xs → scan_body xs seen dot ≡ numeric
unfolding scan_body
scan_complete end = refl
scan_complete (digit d t) = ground (arith, scan_complete t)
scan_complete (point f e t) = ground (arith, scan_complete t)

-- The scan settles a field as a number exactly when, behind one sign at most, it is digits with
-- one point at most and at least one digit; `is_numeric` then says yes without the float parser.
pub scan_numeric-IsDecimal :
    (parses_f64 : Bytes → Bool) (field : Bytes)
    → ((scan_numeric field ≡ numeric) ↔ IsDecimal false false (strip_sign field))
      × (IsDecimal false false (strip_sign field) → is_numeric parses_f64 field ≡ true)
unfolding scan_numeric
scan_numeric-IsDecimal parses_f64 field = (
  (scan_sound (strip_sign field) false false, scan_complete),
  λ d. unfold is_numeric in rw (scan_complete d, is_numeric),
)
