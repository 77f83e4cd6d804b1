-- ===== src/FromBytes.antt =====
-- crates/coseva/src/from_bytes.rs: the integer parsers that `define_unsigned_parser` defines. The
-- type is its largest value, `2 ^ w - 1`, and plain arithmetic on it wraps around.
pub mod Loops
pub mod Range
use coseva.Prelude.{
  ℕ, zero, suc, ◌+◌, ◌-◌, ◌*◌, ◌/◌, ◌%◌, [], ◌∷◌, Option, none, some, ltb, leb, ◌==◌, if◌then◌else◌,
  Bytes, length,
}
use coseva.Error.{ErrorKind, Result, ok, err}

-- `ilog10`, which counts the divisions by ten; a number needs fewer than it is
log_loop : ℕ → ℕ → ℕ
log_loop zero n = 0
log_loop (suc fuel) n = let more = log_loop fuel (n / 10) in if ltb n 10 then 0 else suc more

-- `ALWAYS_FITS`
unfoldable pub always_fits : ℕ → ℕ
unfolding log_loop
always_fits largest = log_loop largest largest

-- `byte.wrapping_sub(b'0')`
abbrev pub digit_of : ℕ → ℕ
digit_of byte = (byte + 256 - b'0') % 256

-- a leading `+`
abbrev pub strip_plus : Bytes → Bytes
strip_plus [] = []
strip_plus (byte ∷ rest) = if byte == b'+' then rest else byte ∷ rest

-- the loop without range checks
unfoldable pub fast_loop : ℕ → Bytes → ℕ → Result ErrorKind ℕ
fast_loop largest [] value = ok value
fast_loop largest (byte ∷ rest) value =
    let later = fast_loop largest rest ((value * 10 + digit_of byte) % suc largest) in
    if ltb 9 (digit_of byte) then err ErrorKind.invalid_digit else later

abbrev pub checked_mul : ℕ → ℕ → ℕ → Option ℕ
checked_mul largest a b = if leb (a * b) largest then some (a * b) else none

abbrev pub checked_add : ℕ → ℕ → ℕ → Option ℕ
checked_add largest a b = if leb (a + b) largest then some (a + b) else none

abbrev and_then : Option ℕ → (ℕ → Option ℕ) → Option ℕ
and_then none f = none
and_then (some a) f = f a

-- `value.checked_mul(10).and_then(|value| value.checked_add(digit))`
unfoldable pub push_digit : ℕ → ℕ → ℕ → Option ℕ
push_digit largest value digit =
    and_then (checked_mul largest value 10) (λ v. checked_add largest v digit)

unfoldable pub checked_loop : ℕ → Bytes → ℕ → Result ErrorKind ℕ
unfolding push_digit
checked_loop largest [] value = ok value
checked_loop largest (byte ∷ rest) value =
    if ltb 9 (digit_of byte)
    then err ErrorKind.invalid_digit
    else elim (push_digit largest value (digit_of byte)) [
      | none ↦ err ErrorKind.out_of_range
      | some value' ↦ checked_loop largest rest value'
    ]

parse_digits : ℕ → Bytes → Result ErrorKind ℕ
unfolding fast_loop checked_loop always_fits
parse_digits largest [] = err ErrorKind.empty_field
parse_digits largest (byte ∷ rest) =
    if leb (length (byte ∷ rest)) (always_fits largest)
    then fast_loop largest (byte ∷ rest) 0
    else checked_loop largest (byte ∷ rest) 0

-- `parse_u8` and the others
unfoldable pub parse_unsigned : ℕ → Bytes → Result ErrorKind ℕ
unfolding parse_digits
parse_unsigned largest bytes = parse_digits largest (strip_plus bytes)
