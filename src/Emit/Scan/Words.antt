-- ===== src/Emit/Scan/Words.antt =====
-- The zero-byte mask finds the zero bytes: it is taken byte by byte from the low end, where the
-- subtraction borrows nothing until the first zero byte, which it marks.
use Prim.Native.Nat.{bit_and, bit_xor}
use coseva.Prelude.{
  ℕ, zero, suc, ◌+◌, ◌-◌, ◌*◌, ◌%◌, ◌^◌, ◌<◌, true, [], ◌∷◌, ◌≡◌, refl, ap, ap₂, ◌∙◌, arith, leb,
  ltb, ◌==◌, not, if◌then◌else◌, any, All, IsByte, Bytes, check_below, check_below_lem, ==→eq, ◌||◌,
  Bool-cases, inl, inr,
}
use coseva.Prelude.Bits.{
  and_digitwise, xor_digitwise, op_split, op_bound, bit_xor-eq-zero, bit_xor_self,
}
use coseva.Emit.Scan.{word_of, zero_byte_mask, repeated_byte, matches, byte_ones, byte_highs}

-- `x - y` modulo `size`, for numbers below it
abbrev wrapping_sub : ℕ → ℕ → ℕ → ℕ
wrapping_sub size x y = if leb y x then x - y else x + size - y

-- the constants for as many bytes as a list has
abbrev size : Bytes → ℕ
size [] = 1
size (x ∷ xs) = 256 * size xs

abbrev constant : ℕ → Bytes → Bytes
constant c [] = []
constant c (x ∷ xs) = c ∷ constant c xs

lane_mask : ℕ → ℕ → ℕ → ℕ → ℕ
lane_mask size ones highs w = bit_and (bit_and (wrapping_sub size w ones) (size - 1 - w)) highs

and_cut :
    (a b r s : ℕ)
    → r < 256
    → s < 256
    → bit_and (r + 256 * a) (s + 256 * b) ≡ bit_and r s + 256 * bit_and a b
and_cut a b r s p q =
    let ea : r + 256 * a ≡ a * 2 ^ 8 + r = omega arith in
    let eb : s + 256 * b ≡ b * 2 ^ 8 + s = omega arith in
    ap₂ bit_and ea eb ∙ op_split and_digitwise 8 a b r s p q ∙ omega arith

xor_cut :
    (a b r s : ℕ)
    → r < 256
    → s < 256
    → bit_xor (r + 256 * a) (s + 256 * b) ≡ bit_xor r s + 256 * bit_xor a b
xor_cut a b r s p q =
    let ea : r + 256 * a ≡ a * 2 ^ 8 + r = omega arith in
    let eb : s + 256 * b ≡ b * 2 ^ 8 + s = omega arith in
    ap₂ bit_xor ea eb ∙ op_split xor_digitwise 8 a b r s p q ∙ omega arith

-- One byte of the mask, where nothing was borrowed.
low_table : check_below 255 (λ b. bit_and (bit_and b (254 - b)) 128 == 0) ≡ true
unfolding check_below
low_table = refl

low_byte : (b : ℕ) → b < 255 → bit_and (bit_and b (254 - b)) 128 ≡ 0
low_byte b h = ==→eq _ _ (check_below_lem 255 _ b low_table h)

lane_nonzero :
    (p ones highs w b : ℕ)
    → b < 255
    → w < p
    → ones < p
    → lane_mask (256 * p) (1 + 256 * ones) (128 + 256 * highs) (suc b + 256 * w)
      ≡ 256 * lane_mask p ones highs w
unfolding lane_mask
lane_nonzero p ones highs w b hb hw ho =
    let sub : wrapping_sub (256 * p) (suc b + 256 * w) (1 + 256 * ones)
        ≡ b + 256 * wrapping_sub p w ones =
      ground arith in
    let inv : 256 * p - 1 - (suc b + 256 * w) ≡ (254 - b) + 256 * (p - 1 - w) = omega arith in
    let x = bit_and b (254 - b) in
    let hx = op_bound and_digitwise 8 b (254 - b) (omega arith) (omega arith) in
    rw (sub, inv)
      (ap (λ t. bit_and t (128 + 256 * highs))
          (and_cut (wrapping_sub p w ones) (p - 1 - w) b (254 - b) (omega arith) (omega arith))
        ∙ and_cut _ highs x 128 hx (omega arith)
        ∙ omega (arith, low_byte b hb))

lane_zero :
    (p ones highs w : ℕ)
    → w < p
    → ones < p
    → (rest : ℕ) × (lane_mask (256 * p) (1 + 256 * ones) (128 + 256 * highs) (0 + 256 * w)
        ≡ 128 + 256 * rest)
unfolding lane_mask
lane_zero p ones highs w hw ho =
    let high : ℕ = if ltb ones w then w - ones - 1 else w + p - ones - 1 in
    let sub : wrapping_sub (256 * p) (0 + 256 * w) (1 + 256 * ones) ≡ 255 + 256 * high =
      ground arith in
    let inv : 256 * p - 1 - (0 + 256 * w) ≡ 255 + 256 * (p - 1 - w) = omega arith in
    (
      bit_and (bit_and high (p - 1 - w)) highs,
      rw (sub, inv)
          (ap (λ t. bit_and t (128 + 256 * highs))
              (and_cut high (p - 1 - w) 255 255 (omega arith) (omega arith))
            ∙ and_cut _ highs 255 128 (omega arith) (omega arith)),
    )

word_of-bound : (c : Bytes) → All IsByte c → word_of c < size c
word_of-bound [] h = omega arith
word_of-bound (x ∷ xs) h = omega (arith, word_of-bound xs h.1)

constant-bound : (c : ℕ) (xs : Bytes) → IsByte c → word_of (constant c xs) < size xs
constant-bound c [] h = omega arith
constant-bound c (x ∷ xs) h = omega (arith, constant-bound c xs h)

abbrev list_mask : Bytes → ℕ
list_mask xs =
    lane_mask (size xs) (word_of (constant 1 xs)) (word_of (constant 128 xs)) (word_of xs)

-- The mask of a list of bytes is 0 exactly when no byte is 0.
list_mask-any : (xs : Bytes) → All IsByte xs → (list_mask xs == 0) ≡ not (any (λ x. x == 0) xs)
list_mask-any [] h = unfold lane_mask in refl
list_mask-any (zero ∷ xs) h =
    let (rest, e) =
      lane_zero (size xs) (word_of (constant 1 xs)) (word_of (constant 128 xs)) (word_of xs)
        (word_of-bound xs h.1) (constant-bound 1 xs (omega arith)) in
    ground (arith, e)
list_mask-any (suc b ∷ xs) h =
    let e =
      lane_nonzero (size xs) (word_of (constant 1 xs)) (word_of (constant 128 xs)) (word_of xs) b
        (omega arith) (word_of-bound xs h.1) (constant-bound 1 xs (omega arith)) in
    ground (arith, e, list_mask-any xs h.1)

abbrev xor_each : ℕ → Bytes → Bytes
xor_each c [] = []
xor_each c (x ∷ xs) = bit_xor x c ∷ xor_each c xs

xor_each-IsByte : (c : ℕ) (xs : Bytes) → IsByte c → All IsByte xs → All IsByte (xor_each c xs)
xor_each-IsByte c [] hc h = tt
xor_each-IsByte c (x ∷ xs) hc h =
    (op_bound xor_digitwise 8 x c (omega arith) hc, xor_each-IsByte c xs hc h.1)

word_of-xor_each :
    (c : ℕ) (xs : Bytes)
    → IsByte c
    → All IsByte xs
    → bit_xor (word_of xs) (word_of (constant c xs)) ≡ word_of (xor_each c xs)
word_of-xor_each c [] hc h = refl
word_of-xor_each c (x ∷ xs) hc h =
    xor_cut (word_of xs) (word_of (constant c xs)) x c (omega arith) hc
    ∙ ap (λ t. bit_xor x c + 256 * t) (word_of-xor_each c xs hc h.1)

any-xor_each : (c : ℕ) (xs : Bytes) → any (λ x. x == 0) (xor_each c xs) ≡ any (λ x. x == c) xs
any-xor_each c [] = refl
any-xor_each c (x ∷ xs) =
    let same : (bit_xor x c == 0) ≡ (x == c) = elim (Bool-cases (x == c)) [
      | inl e ↦ let e' = ==→eq x c e in rw e' (ground (arith, bit_xor_self c))
      | inr e ↦ ground (arith, bit_xor-eq-zero x c)
    ] in
    ap₂ ◌||◌ same (any-xor_each c xs)

zero_byte_mask-lane :
    (w : ℕ) → w < 2 ^ 64 → zero_byte_mask w ≡ lane_mask (2 ^ 64) byte_ones byte_highs w
unfolding zero_byte_mask lane_mask
zero_byte_mask-lane w h =
    let e : (w + 2 ^ 64 - byte_ones) % 2 ^ 64 ≡ wrapping_sub (2 ^ 64) w byte_ones = ground arith in
    ap (λ t. bit_and (bit_and t (2 ^ 64 - 1 - w)) byte_highs) e

-- The mask of a word of eight bytes, at the byte `c`: it is 0 exactly when none of them is `c`.
pub matches-any :
    (c a0 a1 a2 a3 a4 a5 a6 a7 : ℕ)
    → IsByte c
    → All IsByte (a0 ∷ a1 ∷ a2 ∷ a3 ∷ a4 ∷ a5 ∷ a6 ∷ a7 ∷ [])
    → (matches (word_of (a0 ∷ a1 ∷ a2 ∷ a3 ∷ a4 ∷ a5 ∷ a6 ∷ a7 ∷ [])) c == 0)
      ≡ not (any (λ x. x == c) (a0 ∷ a1 ∷ a2 ∷ a3 ∷ a4 ∷ a5 ∷ a6 ∷ a7 ∷ []))
matches-any c a0 a1 a2 a3 a4 a5 a6 a7 hc h =
    let xs : Bytes = a0 ∷ a1 ∷ a2 ∷ a3 ∷ a4 ∷ a5 ∷ a6 ∷ a7 ∷ [] in
    let ys = xor_each c xs in
    let hy = xor_each-IsByte c xs hc h in
    let rep : repeated_byte c ≡ word_of (constant c xs) = unfold repeated_byte in omega arith in
    let e : matches (word_of xs) c ≡ list_mask ys =
      ap (λ t. zero_byte_mask (bit_xor (word_of xs) t)) rep
      ∙ ap zero_byte_mask (word_of-xor_each c xs hc h)
      ∙ zero_byte_mask-lane (word_of ys) (word_of-bound ys hy) in
    ap (λ t. t == 0) e ∙ list_mask-any ys hy ∙ ap not (any-xor_each c xs)
