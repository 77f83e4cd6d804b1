-- ===== src/FromBytes/Loops.antt =====
-- The two loops of the unsigned parsers: the one with range checks accepts what is in range, and
-- the one without takes the same path where no number of so many digits overflows.
use coseva.Prelude.{
  ℕ, zero, suc, ◌+◌, ◌-◌, ◌*◌, ◌%◌, ◌^◌, ◌≤◌, ◌<◌, true, false, [], ◌∷◌, none, some, ◌≡◌, ◌↔◌, refl,
  sym, ap, ◌∙◌, subst, ltb, leb, Bytes, length, All, IsByte, Bool-cases, inl, inr, arith,
}
use native.Mathlib.Nat.{pow-suc, mod-eq_of_lt, mul-le-mul_left, mul-le-mul_right}
use coseva.Error.{ErrorKind, Result, ok, err}
use coseva.FromBytes.{digit_of, fast_loop, push_digit, checked_loop}

abbrev pub IsDigit : ℕ → Type 0
IsDigit byte = (b'0' ≤ byte) × (byte ≤ b'9')

-- the number that digits spell behind `value`
abbrev pub decimal : Bytes → ℕ → ℕ
decimal [] value = value
decimal (byte ∷ rest) value = decimal rest (value * 10 + (byte - b'0'))

digit_of-IsDigit : (byte : ℕ) → IsByte byte → (ltb 9 (digit_of byte) ≡ false) ↔ IsDigit byte
digit_of-IsDigit byte h = ground arith

digit_of_digit : (byte : ℕ) → IsByte byte → IsDigit byte → digit_of byte ≡ byte - b'0'
digit_of_digit byte h d = omega arith

not-IsDigit : (byte : ℕ) → IsByte byte → ltb 9 (digit_of byte) ≡ true → ¬ IsDigit byte
not-IsDigit byte h e d = ground arith

decimal_grows : (rest : Bytes) (value : ℕ) → value ≤ decimal rest value
decimal_grows [] value = omega arith
decimal_grows (byte ∷ rest) value = omega (arith, decimal_grows rest (value * 10 + (byte - b'0')))

push_digit-fits :
    (largest value digit : ℕ)
    → value * 10 + digit ≤ largest
    → push_digit largest value digit ≡ some (value * 10 + digit)
unfolding push_digit
push_digit-fits largest value digit h = ground arith

push_digit-overflows :
    (largest value digit : ℕ) → largest < value * 10 + digit → push_digit largest value digit ≡ none
unfolding push_digit
push_digit-overflows largest value digit h = ground arith

both_end : (largest value : ℕ) → fast_loop largest [] value ≡ checked_loop largest [] value
unfolding fast_loop checked_loop
both_end largest value = refl

-- One round of the loop with range checks.
checked-invalid :
    (largest : ℕ) (byte : ℕ) (rest : Bytes) (value : ℕ)
    → ltb 9 (digit_of byte) ≡ true
    → checked_loop largest (byte ∷ rest) value ≡ err ErrorKind.invalid_digit
unfolding checked_loop
checked-invalid largest byte rest value e = rw (e, checked_loop)

checked-overflow :
    (largest : ℕ) (byte : ℕ) (rest : Bytes) (value : ℕ)
    → ltb 9 (digit_of byte) ≡ false
    → largest < value * 10 + digit_of byte
    → checked_loop largest (byte ∷ rest) value ≡ err ErrorKind.out_of_range
unfolding checked_loop
checked-overflow largest byte rest value e h =
    rw (e, push_digit-overflows largest value (digit_of byte) h, checked_loop)

checked-next :
    (largest : ℕ) (byte : ℕ) (rest : Bytes) (value : ℕ)
    → ltb 9 (digit_of byte) ≡ false
    → value * 10 + digit_of byte ≤ largest
    → checked_loop largest (byte ∷ rest) value
      ≡ checked_loop largest rest (value * 10 + digit_of byte)
unfolding checked_loop
checked-next largest byte rest value e h =
    rw (e, push_digit-fits largest value (digit_of byte) h, checked_loop)

fast-invalid :
    (largest : ℕ) (byte : ℕ) (rest : Bytes) (value : ℕ)
    → ltb 9 (digit_of byte) ≡ true
    → fast_loop largest (byte ∷ rest) value ≡ err ErrorKind.invalid_digit
unfolding fast_loop
fast-invalid largest byte rest value e = rw (e, fast_loop)

fast-next :
    (largest : ℕ) (byte : ℕ) (rest : Bytes) (value : ℕ)
    → ltb 9 (digit_of byte) ≡ false
    → fast_loop largest (byte ∷ rest) value
      ≡ fast_loop largest rest ((value * 10 + digit_of byte) % suc largest)
unfolding fast_loop
fast-next largest byte rest value e = rw (e, fast_loop)

ten_power_pos : (k : ℕ) → 1 ≤ 10 ^ k
ten_power_pos zero = omega arith
ten_power_pos (suc k) = omega (arith, ten_power_pos k, pow-suc 10 k)

-- room for one digit more leaves room behind it
room_times :
    (value digit power power' top : ℕ)
    → power' ≡ power * 10
    → digit ≤ 9
    → suc value * power' ≤ top
    → suc (value * 10 + digit) * power ≤ top
room_times value digit power power' top e d h =
    let wider : suc (value * 10 + digit) ≤ suc value * 10 = omega arith in
    let scaled = mul-le-mul_right power wider in
    let h' : suc value * (power * 10) ≤ top = subst (λ t. suc value * t ≤ top) e h in
    omega (arith, scaled, h')

room_behind :
    (value digit k top : ℕ)
    → digit ≤ 9
    → suc value * 10 ^ suc k ≤ top
    → suc (value * 10 + digit) * 10 ^ k ≤ top
room_behind value digit k top d h =
    room_times value digit (10 ^ k) (10 ^ suc k) top (pow-suc 10 k) d h

room_fits : (value k top : ℕ) → suc value * 10 ^ k ≤ suc top → value ≤ top
room_fits value k top h = omega (arith, mul-le-mul_left (suc value) (ten_power_pos k))

-- The loop without range checks takes the same path where every number of so many digits fits.
pub fast-checked :
    (largest : ℕ) (bytes : Bytes) (value : ℕ)
    → suc value * 10 ^ length bytes ≤ suc largest
    → fast_loop largest bytes value ≡ checked_loop largest bytes value
fast-checked largest [] value h = both_end largest value
fast-checked largest (byte ∷ rest) value h = elim (Bool-cases (ltb 9 (digit_of byte))) [
  | inl e ↦ fast-invalid largest byte rest value e ∙ sym (checked-invalid largest byte rest value e)
  | inr e ↦
      let digit : digit_of byte ≤ 9 = ground arith in
      let room = room_behind value (digit_of byte) (length rest) (suc largest) digit h in
      let fits = room_fits (value * 10 + digit_of byte) (length rest) largest room in
      fast-next largest byte rest value e
      ∙ ap (fast_loop largest rest) (mod-eq_of_lt (omega (arith, fits)))
      ∙ fast-checked largest rest (value * 10 + digit_of byte) room
      ∙ sym (checked-next largest byte rest value e fits)
]

abbrev pub the_ok : ℕ → Result ErrorKind ℕ
the_ok n = ok n

pub ok_or_err : {n : ℕ} {k : ErrorKind} → ¬ (err k ≡ the_ok n)
ok_or_err e = cc

ok_inj : {n m : ℕ} → the_ok n ≡ the_ok m → n ≡ m
ok_inj e = cc

-- The loop with range checks accepts digits whose number is in range, and returns it.
pub accepts_iff :
    (largest : ℕ) (bytes : Bytes) (value n : ℕ)
    → value ≤ largest
    → All IsByte bytes
    → (checked_loop largest bytes value ≡ ok n)
      ↔ All IsDigit bytes × (decimal bytes value ≡ n) × (n ≤ largest)
accepts_iff largest [] value n v h =
    unfold checked_loop in
    (λ e. (tt, ok_inj e, subst (λ t. t ≤ largest) (ok_inj e) v), λ p. ap the_ok p.1)
accepts_iff largest (byte ∷ rest) value n v (b, h) = elim (Bool-cases (ltb 9 (digit_of byte))) [
  | inl e ↦ (
    λ q. absurd (ok_or_err (sym (checked-invalid largest byte rest value e) ∙ q)),
    λ p. absurd (not-IsDigit byte b e p.0.0),
  )
  | inr e ↦
      let d = (digit_of-IsDigit byte b).0 e in
      let same = digit_of_digit byte b d in
      elim (Bool-cases (leb (value * 10 + digit_of byte) largest)) [
        | inl f ↦
            let fits : value * 10 + digit_of byte ≤ largest = ground arith in
            let next = checked-next largest byte rest value e fits in
            let later = accepts_iff largest rest (value * 10 + digit_of byte) n fits h in
            let spell = ap (λ t. decimal rest (value * 10 + t)) same in
            (
              λ q. let p = later.0 (sym next ∙ q) in ((d, p.0), sym spell ∙ p.1, p.2),
              λ p. next ∙ later.1 (p.0.1, spell ∙ p.1, p.2),
            )
        | inr f ↦
            let over : largest < value * 10 + digit_of byte = ground arith in
            (
              λ q. absurd (ok_or_err (sym (checked-overflow largest byte rest value e over) ∙ q)),
              λ p. absurd (
                  omega
                    (arith, over, same, p.1, p.2, decimal_grows rest (value * 10 + (byte - b'0')))),
            )
      ]
]
