-- ===== src/Search.antt =====
-- crates/coseva_unsafe/src/search.rs: the portable byte searches.
pub mod First
use coseva.Prelude.{
  ℕ, suc, ◌<◌, Bool, true, false, [], ◌∷◌, ◌++◌, Option, none, some, ◌≡◌, refl, ap, ◌||◌, ◌==◌,
  if◌then◌else◌, any, Bytes, length, Bool-cases, Option-cases, inl, inr, arith,
}

-- `input.iter().position(p)`
unfoldable pub position : (ℕ → Bool) → Bytes → Option ℕ
position p [] = none
position p (x ∷ xs) =
    let later = position p xs in
    if p x then some 0 else elim later [ none ↦ none | some i ↦ some (suc i) ]

-- `needles.contains(byte)`
abbrev pub contains : Bytes → ℕ → Bool
contains [] byte = false
contains (n ∷ ns) byte = n == byte || contains ns byte

unfoldable pub find : Bytes → Bytes → Option ℕ
unfolding position
find needles input = position (contains needles) input

unfoldable pub find1 : ℕ → Bytes → Option ℕ
unfolding find
find1 a input = find (a ∷ []) input

unfoldable pub find2 : ℕ → ℕ → Bytes → Option ℕ
unfolding find
find2 a b input = find (a ∷ b ∷ []) input

unfoldable pub find3 : ℕ → ℕ → ℕ → Bytes → Option ℕ
unfolding find
find3 a b c input = find (a ∷ b ∷ c ∷ []) input

unfoldable pub find4 : ℕ → ℕ → ℕ → ℕ → Bytes → Option ℕ
unfolding find
find4 a b c d input = find (a ∷ b ∷ c ∷ d ∷ []) input

abbrev pub is_some : Option ℕ → Bool
is_some none = false
is_some (some i) = true

-- What a search answers: the first byte that fits, with what stands before and behind it.
pub record FoundAt (p : ℕ → Bool) (input : Bytes) (i : ℕ) : Type 0 where
  pub before : Bytes
  pub byte : ℕ
  pub after : Bytes
  pub cut : input ≡ before ++ (byte ∷ after)
  pub index : i ≡ length before
  pub fits : p byte ≡ true
  pub none_before : any p before ≡ false

pub is_some-position : (p : ℕ → Bool) (xs : Bytes) → is_some (position p xs) ≡ any p xs
unfolding position
is_some-position p [] = refl
is_some-position p (x ∷ xs) = ground (arith, is_some-position p xs)

pub position-none : (p : ℕ → Bool) (xs : Bytes) → position p xs ≡ none → any p xs ≡ false
unfolding position
position-none p [] h = refl
position-none p (x ∷ xs) h = ground (arith, position-none p xs)

step_over :
    (p : ℕ → Bool) (x : ℕ) (xs : Bytes) (i : ℕ)
    → p x ≡ false
    → FoundAt p xs i
    → FoundAt p (x ∷ xs) (suc i)
step_over p x xs i h f = record {
  before = x ∷ f.before;
  byte = f.byte;
  after = f.after;
  cut = ap (λ t. x ∷ t) f.cut;
  index = ap suc f.index;
  fits = f.fits;
  none_before = ground (arith, f.none_before);
}

-- A search that finds an index found a byte there that passes the test, and none before it does.
pub position-FoundAt : (p : ℕ → Bool) (xs : Bytes) (i : ℕ) → position p xs ≡ some i → FoundAt p xs i
position-FoundAt p [] i h = unfold position in cc h
position-FoundAt p (x ∷ xs) i h = elim (Bool-cases (p x)) [
  | inl yes_x ↦ record {
    before = [];
    byte = x;
    after = xs;
    cut = refl;
    index = unfold position in ground arith;
    fits = yes_x;
    none_before = refl;
  }
  | inr no_x ↦ elim (Option-cases (position p xs)) [
    | inl e ↦ absurd (unfold position in ground arith)
    | inr (j, e) ↦
        let ij : suc j ≡ i = unfold position in ground arith in
        rw (← ij) (step_over p x xs j no_x (position-FoundAt p xs j e))
  ]
]

-- A search answers an index in range.
pub position-lt-length :
    (p : ℕ → Bool) (xs : Bytes) (i : ℕ) → position p xs ≡ some i → i < length xs
unfolding position
position-lt-length p [] i h = cc
position-lt-length p (x ∷ xs) i h = elim (Bool-cases (p x)) [
  | inl yes_x ↦ ground arith
  | inr no_x ↦ elim (Option-cases (position p xs)) [
    | inl e ↦ absurd (ground arith)
    | inr (j, e) ↦ ground (arith, position-lt-length p xs j e)
  ]
]
