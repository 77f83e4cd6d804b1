-- ===== src/Parse/Place.antt =====
-- Places in the input: what stands behind an offset, and what slices and searches answer there.
use coseva.Prelude.{
  ℕ, zero, suc, ◌+◌, ◌-◌, ◌≤◌, Bool, true, false, [], ◌∷◌, ◌++◌, none, some, ◌≡◌, refl, sym, ap,
  ◌∙◌, Bytes, length, take, drop, get_elem?, any, arith, length-append, take-append, drop-append,
  append-nil, length-drop,
}
use coseva.Search.{position}
use coseva.Parse.Spans.{slice}

-- `xs` is the input from the offset on.
pub record At (input : Bytes) (at : ℕ) (xs : Bytes) : Type 0 where
  pub behind : drop at input ≡ xs
  pub inside : at ≤ length input

drop_empty : (n : ℕ) → drop {A = ℕ} n [] ≡ []
drop_empty zero = refl
drop_empty (suc n) = refl

drop_further : (m n : ℕ) (xs : Bytes) → drop n (drop m xs) ≡ drop (m + n) xs
drop_further zero n xs = ap (λ k. drop k xs) (omega arith)
drop_further (suc m) n [] = drop_empty n ∙ sym (drop_empty (suc m + n))
drop_further (suc m) n (x ∷ xs) =
    let k : suc m + n ≡ suc (m + n) = omega arith in
    drop_further m n xs ∙ sym (ap (λ i. drop i (x ∷ xs)) k)

pub get_elem?-drop : (i : ℕ) (xs : Bytes) → get_elem? xs i ≡ get_elem? (drop i xs) 0
get_elem?-drop zero xs = refl
get_elem?-drop (suc i) [] = refl
get_elem?-drop (suc i) (x ∷ xs) = get_elem?-drop i xs

take-longer : (xs ys : Bytes) (n : ℕ) → take (length xs + n) (xs ++ ys) ≡ xs ++ take n ys
take-longer [] ys n = ap (λ k. take k ys) (omega arith)
take-longer (x ∷ xs) ys n =
    let k : suc (length xs) + n ≡ suc (length xs + n) = omega arith in
    ap (λ t. take t (x ∷ (xs ++ ys))) k ∙ ap (λ t. x ∷ t) (take-longer xs ys n)

module _ {input : Bytes} {at : ℕ} where
  pub At-length : (xs : Bytes) → At input at xs → at + length xs ≡ length input
  At-length xs p = rw (← p.behind) (omega (arith, p.inside, length-drop at input))

  pub At-append : (xs ys : Bytes) → At input at (xs ++ ys) → At input (at + length xs) ys
  At-append xs ys p = record {
    behind =
        sym (drop_further at (length xs) input)
        ∙ ap (drop (length xs)) p.behind
        ∙ drop-append xs ys;
    inside = omega (arith, At-length (xs ++ ys) p, length-append xs ys);
  }

  pub At-head : (x : ℕ) (xs : Bytes) → At input at (x ∷ xs) → get_elem? input at ≡ some x
  At-head x xs p = get_elem?-drop at input ∙ ap (λ t. get_elem? t 0) p.behind

  pub At-end : At input at [] → get_elem? input at ≡ none
  At-end p = get_elem?-drop at input ∙ ap (λ t. get_elem? t 0) p.behind

  pub At-slice : (xs ys : Bytes) → At input at (xs ++ ys) → slice input at (at + length xs) ≡ xs
  At-slice xs ys p =
      let n : (at + length xs) - at ≡ length xs = omega arith in
      ap (λ t. take t (drop at input)) n ∙ ap (take (length xs)) p.behind ∙ take-append xs ys

  -- A slice that reaches further begins with what stands there.
  pub At-prefix :
      (xs ys : Bytes) (end : ℕ)
      → At input at (xs ++ ys)
      → at + length xs ≤ end
      → slice input at end ≡ xs ++ take (end - at - length xs) ys
  At-prefix xs ys end p h =
      let n : end - at ≡ length xs + (end - at - length xs) = omega arith in
      ap (λ t. take t (drop at input)) n
      ∙ ap (take (length xs + (end - at - length xs))) p.behind
      ∙ take-longer xs ys (end - at - length xs)

  pub At-rest : (xs : Bytes) → At input at xs → slice input at (length input) ≡ xs
  At-rest xs p =
      let n : length input - at ≡ length xs = omega (arith, At-length xs p) in
      ap (λ t. take t (drop at input)) n
      ∙ ap (take (length xs)) p.behind
      ∙ ap (take (length xs)) (sym (append-nil xs))
      ∙ take-append xs []

-- A search meets the first byte that passes its test.
pub position-append :
    (p : ℕ → Bool) (b : Bytes) (x : ℕ) (a : Bytes)
    → any p b ≡ false
    → p x ≡ true
    → position p (b ++ (x ∷ a)) ≡ some (length b)
unfolding position
position-append p [] x a h k = rw (k, position) refl
position-append p (y ∷ b) x a h k = ground (arith, position-append p b x a)
