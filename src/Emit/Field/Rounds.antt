-- ===== src/Emit/Field/Rounds.antt =====
-- One round of the loops that escape a field: what the search of a round finds, and what the round
-- leaves to do.
use coseva.Prelude.{
  ℕ, suc, ◌+◌, ◌<◌, Bool, true, false, [], ◌∷◌, ◌++◌, Option, none, some, ◌≡◌, refl, sym, ap, ap₂,
  subst, subst₂, ◌∙◌, ◌||◌, ◌==◌, if◌then◌else◌, any, Bytes, length, take, drop, Bool-cases, inl,
  inr, arith, append_assoc, take-append, drop-append, length-append,
}
use coseva.Search.{position, contains, find1, FoundAt, position-FoundAt, position-none}
use coseva.Emit.Field.{EscapeMatch, leading, later, index, later_match, first_is}

-- every byte replaced by its own bytes
abbrev pub each : (ℕ → Bytes) → Bytes → Bytes
each f [] = []
each f (x ∷ xs) = f x ++ each f xs

pub each-append : (f : ℕ → Bytes) (xs ys : Bytes) → each f (xs ++ ys) ≡ each f xs ++ each f ys
each-append f [] ys = refl
each-append f (x ∷ xs) ys =
    ap (λ t. f x ++ t) (each-append f xs ys) ∙ sym (append_assoc (f x) (each f xs) (each f ys))

-- `f` leaves alone what `p` does not pick.
abbrev pub KeepsOthers : (ℕ → Bool) → (ℕ → Bytes) → Type 0
KeepsOthers p f = (x : ℕ) → p x ≡ false → f x ≡ x ∷ []

pub each_kept :
    (p : ℕ → Bool) (f : ℕ → Bytes)
    → KeepsOthers p f
    → (xs : Bytes) → any p xs ≡ false
    → each f xs ≡ xs
each_kept p f keep [] h = refl
each_kept p f keep (x ∷ xs) h =
    rw (keep x (ground arith)) (ap (λ t. x ∷ t) (each_kept p f keep xs (ground arith)))

-- One round of a loop, at what its search found.
pub record Round (f : ℕ → Bytes) (xs : Bytes) (i : ℕ) (byte : ℕ) : Type 0 where
  pub here : take 1 (drop i xs) ≡ byte ∷ []
  pub written_so_far : each f xs ≡ take i xs ++ (f byte ++ each f (drop (i + 1) xs))
  pub shorter : length (drop (i + 1) xs) < length xs

pub drop_past : (b : Bytes) (x : ℕ) (a : Bytes) → drop (suc (length b)) (b ++ (x ∷ a)) ≡ a
drop_past [] x a = refl
drop_past (y ∷ b) x a = drop_past b x a

pub Round-at :
    (p : ℕ → Bool) (f : ℕ → Bytes)
    → KeepsOthers p f
    → (b : Bytes) (x : ℕ) (a : Bytes) → any p b ≡ false
    → Round f (b ++ (x ∷ a)) (length b) x
Round-at p f keep b x a h =
    let one : length b + 1 ≡ suc (length b) = omega arith in
    record {
      here = ap (take 1) (drop-append b (x ∷ a));
      written_so_far =
          each-append f b (x ∷ a)
          ∙ ap₂ ◌++◌ (each_kept p f keep b h ∙ sym (take-append b (x ∷ a))) (
              ap (λ t. f x ++ each f t)
                (sym (ap (λ n. drop n (b ++ (x ∷ a))) one ∙ drop_past b x a)));
      shorter = rw (one, drop_past b x a) (omega (arith, length-append b (x ∷ a)));
    }

pub round :
    (p : ℕ → Bool) (f : ℕ → Bytes)
    → KeepsOthers p f
    → {xs : Bytes} {i : ℕ} (found : FoundAt p xs i) → Round f xs i found.byte
round p f keep {xs} {i} found =
    subst₂ (λ t n. Round f t n found.byte) (sym found.cut) (sym found.index)
      (Round-at p f keep found.before found.byte found.after found.none_before)

-- `DoubleQuote`: a quote is written twice.
abbrev pub doubled : ℕ → ℕ → Bytes
doubled quote x = if x == quote then quote ∷ quote ∷ [] else x ∷ []

-- `Backslash`: a quote or an escape byte is written behind an escape byte.
abbrev pub backslashed : ℕ → ℕ → ℕ → Bytes
backslashed quote escape x = if x == quote || x == escape then escape ∷ x ∷ [] else x ∷ []

pub doubled_keeps : (q : ℕ) → KeepsOthers (contains (q ∷ [])) (doubled q)
doubled_keeps q x h = ground arith

pub doubled_found : (q x : ℕ) → contains (q ∷ []) x ≡ true → doubled q x ≡ q ∷ q ∷ []
doubled_found q x h = ground arith

pub backslashed_keeps : (q e : ℕ) → KeepsOthers (contains (q ∷ e ∷ [])) (backslashed q e)
backslashed_keeps q e x h = ground arith

pub backslashed_found :
    (q e x : ℕ) → contains (q ∷ e ∷ []) x ≡ true → backslashed q e x ≡ e ∷ x ∷ []
backslashed_found q e x h = ground arith

-- A round's two writes and what the rest of the loop writes.
pub advance :
    {f : ℕ → Bytes} {xs : Bytes} {i byte : ℕ} {bs : Bytes} (out : Bytes)
    → Round f xs i byte
    → f byte ≡ bs
    → ((out ++ take i xs) ++ bs) ++ each f (drop (i + 1) xs) ≡ out ++ each f xs
advance {f} {xs} {i} {byte} {bs} out r e =
    append_assoc (out ++ take i xs) bs (each f (drop (i + 1) xs))
    ∙ append_assoc out (take i xs) (bs ++ each f (drop (i + 1) xs))
    ∙ ap (λ t. out ++ t)
        (ap (λ t. take i xs ++ (t ++ each f (drop (i + 1) xs))) (sym e) ∙ sym r.written_so_far)

pub find1-FoundAt :
    (q : ℕ) (xs : Bytes) (i : ℕ) → find1 q xs ≡ some i → FoundAt (contains (q ∷ [])) xs i
unfolding find1
find1-FoundAt q xs i e = position-FoundAt (contains (q ∷ [])) xs i e

-- The search of a round sees a leading match, or finds a later one.
pub first_is-FoundAt :
    (p q : ℕ → Bool)
    → ((x : ℕ) → p x ≡ true → q x ≡ true)
    → (xs : Bytes) → first_is xs p ≡ true
    → FoundAt q xs 0
first_is-FoundAt p q imp [] h = cc
first_is-FoundAt p q imp (x ∷ xs) h = record {
  before = [];
  byte = x;
  after = xs;
  cut = refl;
  index = refl;
  fits = imp x h;
  none_before = refl;
}

pub later_match-some :
    (o : Option ℕ) (m : EscapeMatch) → later_match o ≡ some m → o ≡ some (index m)
later_match-some none m h = cc
later_match-some (some i) leading h = cc
later_match-some (some i) (later j) h = cc

pub later_match-none : (o : Option ℕ) → later_match o ≡ none → o ≡ none
later_match-none none h = refl
later_match-none (some i) h = cc

abbrev pub next_match : (ℕ → Bool) → (ℕ → Bool) → Bytes → Option EscapeMatch
next_match p q xs = if first_is xs p then some leading else later_match (position q xs)

pub next_match-some :
    (p q : ℕ → Bool)
    → ((x : ℕ) → p x ≡ true → q x ≡ true)
    → (xs : Bytes) (m : EscapeMatch) → next_match p q xs ≡ some m
    → FoundAt q xs (index m)
next_match-some p q imp xs m h = elim (Bool-cases (first_is xs p)) [
  | inl e ↦
      let zero_index : 0 ≡ index m = ground arith in
      subst (FoundAt q xs) zero_index (first_is-FoundAt p q imp xs e)
  | inr e ↦ position-FoundAt q xs (index m) (later_match-some (position q xs) m (rw e at h))
]

pub next_match-none : (p q : ℕ → Bool) (xs : Bytes) → next_match p q xs ≡ none → any q xs ≡ false
next_match-none p q xs h = elim (Bool-cases (first_is xs p)) [
  | inl e ↦ absurd (ground arith)
  | inr e ↦ position-none q xs (later_match-none (position q xs) (rw e at h))
]
