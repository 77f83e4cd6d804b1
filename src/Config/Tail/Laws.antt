-- ===== src/Config/Tail/Laws.antt =====
-- What a separator's tail confirms.
use coseva.Prelude.{
  ℕ, zero, suc, ltb, if◌then◌else◌, ◌≤◌, Bool, true, false, [], ◌∷◌, ◌++◌, ◌≡◌, ◌↔◌, refl, sym, ap,
  ◌∙◌, Bytes, length, take, drop, bytes_eq, bytes_eq→eq, bytes_eq_refl, leb, ◌&&◌, arith, take-drop,
  take-append, length-append,
}
use coseva.Config.Tail.{Tail, tail_of, as_slice, confirms, unusable, width, max_tail}

abbrev is_prefix : Bytes → Bytes → Bool
is_prefix p xs = leb (length p) (length xs) && bytes_eq (take (length p) xs) p

prefix-append : (p rest : Bytes) → is_prefix p (p ++ rest) ≡ true
prefix-append p rest = rw take-append (ground (arith, bytes_eq_refl p, length-append p rest))

prefix_eq : (p xs : Bytes) → is_prefix p xs ≡ true → xs ≡ p ++ drop (length p) xs
prefix_eq p xs h =
    let e : take (length p) xs ≡ p = bytes_eq→eq _ _ (ground arith) in
    sym (take-drop (length p) xs) ∙ ap (λ (t : Bytes). t ++ drop (length p) xs) e

-- A tail confirms what begins with its bytes, and nothing else.
pub confirms_iff :
    (t : Tail) (xs : Bytes) → (confirms t xs ≡ true) ↔ ((rest : Bytes) × (xs ≡ as_slice t ++ rest))
unfolding confirms
confirms_iff t xs = (
  λ h. (drop (length (as_slice t)) xs, prefix_eq (as_slice t) xs h),
  λ e. rw e.1 (prefix-append (as_slice t) e.0),
)

three_bytes :
    (n a b c : ℕ)
    → n ≤ max_tail
    → length (take (if ltb max_tail n then 0 else n) (a ∷ b ∷ c ∷ [])) ≡ n
three_bytes zero a b c h = refl
three_bytes (suc zero) a b c h = refl
three_bytes (suc (suc zero)) a b c h = refl
three_bytes (suc (suc (suc zero))) a b c h = refl
three_bytes (suc (suc (suc (suc n)))) a b c h = absurd (omega arith)

-- A usable tail is as long as it says.
pub length-as_slice : (t : Tail) → t.len ≤ max_tail → length (as_slice t) ≡ t.len
length-as_slice t = three_bytes t.len t.byte0 t.byte1 t.byte2

-- What a usable tail confirms is at least as long as the tail.
pub confirms-len :
    (t : Tail) (xs : Bytes) → t.len ≤ max_tail → confirms t xs ≡ true → t.len ≤ length xs
unfolding confirms
confirms-len t xs h c = ground (arith, length-as_slice t h)

as_slice-tail_of :
    (lead : ℕ) (bs : Bytes) → length bs ≤ max_tail → as_slice (tail_of (lead ∷ bs)) ≡ bs
unfolding tail_of
as_slice-tail_of lead [] h = refl
as_slice-tail_of lead (a ∷ []) h = refl
as_slice-tail_of lead (a ∷ b ∷ []) h = refl
as_slice-tail_of lead (a ∷ b ∷ c ∷ []) h = refl
as_slice-tail_of lead (a ∷ b ∷ c ∷ d ∷ more) h = absurd (omega arith)

width-tail_of :
    (lead : ℕ) (bs : Bytes)
    → length bs ≤ max_tail
    → width (tail_of (lead ∷ bs)) ≡ length (lead ∷ bs)
unfolding tail_of
width-tail_of lead [] h = refl
width-tail_of lead (a ∷ []) h = refl
width-tail_of lead (a ∷ b ∷ []) h = refl
width-tail_of lead (a ∷ b ∷ c ∷ []) h = refl
width-tail_of lead (a ∷ b ∷ c ∷ d ∷ more) h = absurd (omega arith)

-- Of a separator of one to four bytes, `Tail::of` keeps the whole: its width is the separator's,
-- and the tail confirms exactly the input that goes on with the bytes behind the first.
pub confirms-tail_of :
    (lead : ℕ) (bs xs : Bytes)
    → length bs ≤ max_tail
    → (width (tail_of (lead ∷ bs)) ≡ length (lead ∷ bs))
      × ((confirms (tail_of (lead ∷ bs)) xs ≡ true) ↔ ((rest : Bytes) × (xs ≡ bs ++ rest)))
confirms-tail_of lead bs xs h =
    let c = confirms_iff (tail_of (lead ∷ bs)) xs in
    (width-tail_of lead bs h, rw (as_slice-tail_of lead bs h) at c)

-- A separator is refused exactly when it is empty or longer than four bytes.
pub unusable-tail_of :
    (bs : Bytes) → (unusable (tail_of bs) ≡ false) ↔ (1 ≤ length bs) × (length bs ≤ 4)
unfolding tail_of
unusable-tail_of [] = ground arith
unusable-tail_of (lead ∷ []) = ground arith
unusable-tail_of (lead ∷ a ∷ []) = ground arith
unusable-tail_of (lead ∷ a ∷ b ∷ []) = ground arith
unusable-tail_of (lead ∷ a ∷ b ∷ c ∷ []) = ground arith
unusable-tail_of (lead ∷ a ∷ b ∷ c ∷ d ∷ more) = ground arith
