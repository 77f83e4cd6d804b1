-- ===== src/Search/First.antt =====
-- What the searches of crates/coseva_unsafe/src/search.rs find.
use coseva.Prelude.{
  ℕ, zero, suc, ◌<◌, Bool, true, false, [], ◌∷◌, some, ◌≡◌, ◌⊎◌, ◌↔◌, refl, ap, ◌∙◌, subst, ◌==◌,
  get_elem?, Bytes, Bool-cases, Option-cases, inl, inr, arith,
}
use coseva.Search.{position, contains, find, find1, find2, find3, find4}

-- The byte at the index is the first to pass the test.
record FirstAt (p : ℕ → Bool) (xs : Bytes) (i : ℕ) : Type 0 where
  byte : ℕ
  stands : get_elem? xs i ≡ some byte
  passes : p byte ≡ true
  before : (j y : ℕ) → j < i → get_elem? xs j ≡ some y → p y ≡ false

FirstAt-suc :
    (p : ℕ → Bool) (x : ℕ) (xs : Bytes) (i : ℕ)
    → p x ≡ false
    → FirstAt p xs i
    → FirstAt p (x ∷ xs) (suc i)
FirstAt-suc p x xs i h f = record {
  byte = f.byte;
  stands = f.stands;
  passes = f.passes;
  before = λ j y. earlier j y;
}
  where
    earlier : (j y : ℕ) → j < suc i → get_elem? (x ∷ xs) j ≡ some y → p y ≡ false
    earlier zero y k e = cc
    earlier (suc j) y k e = f.before j y (omega arith) e

position-FirstAt : (p : ℕ → Bool) (xs : Bytes) (i : ℕ) → position p xs ≡ some i → FirstAt p xs i
unfolding position
position-FirstAt p [] i h = cc h
position-FirstAt p (x ∷ xs) i h = elim (Bool-cases (p x)) [
  | inl yes_x ↦
      let here : 0 ≡ i = ground arith in
      subst (FirstAt p (x ∷ xs)) here (record {
        byte = x;
        stands = refl;
        passes = yes_x;
        before = λ j y k e. absurd (omega arith);
      })
  | inr no_x ↦ elim (Option-cases (position p xs)) [
    | inl e ↦ absurd (ground arith)
    | inr (j, e) ↦
        let next : suc j ≡ i = ground arith in
        subst (FirstAt p (x ∷ xs)) next (FirstAt-suc p x xs j no_x (position-FirstAt p xs j e))
  ]
]

FirstAt-position : (p : ℕ → Bool) (xs : Bytes) (i : ℕ) → FirstAt p xs i → position p xs ≡ some i
unfolding position
FirstAt-position p [] i f = cc (f.stands)
FirstAt-position p (x ∷ xs) zero f =
    let same : x ≡ f.byte = ground (arith, f.stands) in
    let here : p x ≡ true = ap p same ∙ f.passes in rw (here, position) refl
FirstAt-position p (x ∷ xs) (suc i) f =
    let no_x : p x ≡ false = f.before 0 x (omega arith) refl in
    let rest = FirstAt-position p xs i (record {
      byte = f.byte;
      stands = f.stands;
      passes = f.passes;
      before = λ j y k e. f.before (suc j) y (omega arith) e;
    }) in
    ground (arith, rest)

abbrev pub Among : Bytes → ℕ → Type 0
Among [] byte = ⊥
Among (needle ∷ needles) byte = (byte ≡ needle) ⊎ Among needles byte

-- The index of the first byte that is one of the needles.
pub record IsFirstOf (needles xs : Bytes) (i : ℕ) : Type 0 where
  pub byte : ℕ
  pub stands : get_elem? xs i ≡ some byte
  pub needle : Among needles byte
  pub before : (j y : ℕ) → j < i → get_elem? xs j ≡ some y → ¬ (Among needles y)

contains-Among : (needles : Bytes) (y : ℕ) → contains needles y ≡ true → Among needles y
contains-Among [] y h = cc
contains-Among (n ∷ ns) y h = elim (Bool-cases (n == y)) [
  | inl same ↦ inl (ground arith)
  | inr other ↦ inr (contains-Among ns y (rw other at h))
]

Among-contains : (needles : Bytes) (y : ℕ) → Among needles y → contains needles y ≡ true
Among-contains [] y h = absurd h
Among-contains (n ∷ ns) y (inl same) = ground arith
Among-contains (n ∷ ns) y (inr later) = ground (arith, Among-contains ns y later)

find-IsFirstOf : (needles xs : Bytes) (i : ℕ) → (find needles xs ≡ some i) ↔ IsFirstOf needles xs i
unfolding find
find-IsFirstOf needles xs i = (
  λ h.
      let f = position-FirstAt (contains needles) xs i h in
      record {
        byte = f.byte;
        stands = f.stands;
        needle = contains-Among needles f.byte f.passes;
        before = λ j y k e m. cc (f.before j y k e, Among-contains needles y m);
      },
  λ f. FirstAt-position (contains needles) xs i (record {
    byte = f.byte;
    stands = f.stands;
    passes = Among-contains needles f.byte f.needle;
    before = λ j y k e. elim (Bool-cases (contains needles y)) [
      | inl among ↦ absurd (f.before j y k e (contains-Among needles y among))
      | inr absent ↦ absent
    ];
  }),
)

-- Each of the four searches answers an index exactly where it is that of the first byte that is one
-- of its needles.
pub searches-IsFirstOf :
    (a b c d : ℕ) (xs : Bytes) (i : ℕ)
    → ((find1 a xs ≡ some i) ↔ IsFirstOf (a ∷ []) xs i)
      × ((find2 a b xs ≡ some i) ↔ IsFirstOf (a ∷ b ∷ []) xs i)
      × ((find3 a b c xs ≡ some i) ↔ IsFirstOf (a ∷ b ∷ c ∷ []) xs i)
      × ((find4 a b c d xs ≡ some i) ↔ IsFirstOf (a ∷ b ∷ c ∷ d ∷ []) xs i)
unfolding find1 find2 find3 find4
searches-IsFirstOf a b c d xs i = (
  find-IsFirstOf (a ∷ []) xs i,
  find-IsFirstOf (a ∷ b ∷ []) xs i,
  find-IsFirstOf (a ∷ b ∷ c ∷ []) xs i,
  find-IsFirstOf (a ∷ b ∷ c ∷ d ∷ []) xs i,
)
