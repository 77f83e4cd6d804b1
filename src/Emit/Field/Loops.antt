-- ===== src/Emit/Field/Loops.antt =====
-- The loops of `write_quoted` and `write_csv_necessary`, and the field that they write in one pass.
use coseva.Prelude.{
  ℕ, zero, suc, ◌+◌, ◌≤◌, false, [], ◌∷◌, ◌++◌, none, some, ◌≡◌, refl, sym, ap, ◌∙◌, ◌||◌, ◌==◌,
  any, Bytes, length, take, drop, Option-cases, inl, inr, arith,
}
use coseva.Search.{contains, find1, FoundAt, position-none}
use coseva.Config.Dialect.{Dialect}
use coseva.Emit.Writer.{written}
use coseva.Emit.Field.{
  EscapeMatch, index, next_doubled_quote, next_backslash_escape, doubled_loop, backslash_loop,
  csv_loop, byte_at,
}
use coseva.Emit.Field.Rounds.{
  each, each_kept, round, doubled, backslashed, doubled_keeps, doubled_found, backslashed_keeps,
  backslashed_found, advance, find1-FoundAt, next_match-some, next_match-none,
}

csv_loop_done :
    (fuel : ℕ) (xs out : Bytes)
    → find1 b'"' xs ≡ none
    → csv_loop (suc fuel) xs out ≡ written (out ++ xs) tt
unfolding csv_loop
csv_loop_done fuel xs out e = rw (e, csv_loop)

csv_loop_step :
    (fuel : ℕ) (xs out : Bytes) (i : ℕ)
    → find1 b'"' xs ≡ some i
    → csv_loop (suc fuel) xs out
      ≡ csv_loop fuel (drop (i + 1) xs) ((out ++ take i xs) ++ (b'"' ∷ b'"' ∷ []))
unfolding csv_loop
csv_loop_step fuel xs out i e = rw (e, csv_loop)

find1-none : (q : ℕ) (xs : Bytes) → find1 q xs ≡ none → any (contains (q ∷ [])) xs ≡ false
unfolding find1
find1-none q xs e = position-none (contains (q ∷ [])) xs e

pub csv_loop-each :
    (fuel : ℕ) (xs out : Bytes)
    → length xs ≤ fuel
    → csv_loop fuel xs out ≡ written (out ++ each (doubled b'"') xs) tt
unfolding csv_loop
csv_loop-each zero [] out h = refl
csv_loop-each zero (x ∷ xs) out h = absurd (omega arith)
csv_loop-each (suc fuel) xs out h = elim (Option-cases (find1 b'"' xs)) [
  | inl e ↦
      csv_loop_done fuel xs out e
      ∙ ap (λ t. written (out ++ t) tt)
          (sym (each_kept _ _ (doubled_keeps b'"') xs (find1-none b'"' xs e)))
  | inr (i, e) ↦
      let found = find1-FoundAt b'"' xs i e in
      let r = round _ _ (doubled_keeps b'"') found in
      csv_loop_step fuel xs out i e
      ∙ csv_loop-each fuel (drop (i + 1) xs) ((out ++ take i xs) ++ (b'"' ∷ b'"' ∷ []))
          (omega (arith, r.shorter))
      ∙ ap (λ t. written t tt) (advance out r (doubled_found b'"' found.byte found.fits))
]

doubled_loop_done :
    (fuel : ℕ) (d : Dialect) (xs out : Bytes)
    → next_doubled_quote d xs ≡ none
    → doubled_loop (suc fuel) d xs out ≡ written (out ++ xs) tt
unfolding doubled_loop
doubled_loop_done fuel d xs out e = rw (e, doubled_loop)

doubled_loop_step :
    (fuel : ℕ) (d : Dialect) (xs out : Bytes) (m : EscapeMatch)
    → next_doubled_quote d xs ≡ some m
    → doubled_loop (suc fuel) d xs out
      ≡ doubled_loop fuel d
          (drop (index m + 1) xs)
          ((out ++ take (index m) xs) ++ (d.quote ∷ d.quote ∷ []))
unfolding doubled_loop
doubled_loop_step fuel d xs out m e = rw (e, doubled_loop)

next_doubled_quote-none :
    (d : Dialect) (xs : Bytes)
    → next_doubled_quote d xs ≡ none
    → any (contains (d.quote ∷ [])) xs ≡ false
unfolding next_doubled_quote
next_doubled_quote-none d xs e = next_match-none (λ x. x == d.quote) (contains (d.quote ∷ [])) xs e

next_doubled_quote-FoundAt :
    (d : Dialect) (xs : Bytes) (m : EscapeMatch)
    → next_doubled_quote d xs ≡ some m
    → FoundAt (contains (d.quote ∷ [])) xs (index m)
unfolding next_doubled_quote
next_doubled_quote-FoundAt d xs m e =
    next_match-some (λ x. x == d.quote) (contains (d.quote ∷ [])) (λ x t. ground arith) xs m e

pub doubled_loop-each :
    (fuel : ℕ) (d : Dialect) (xs out : Bytes)
    → length xs ≤ fuel
    → doubled_loop fuel d xs out ≡ written (out ++ each (doubled d.quote) xs) tt
unfolding doubled_loop
doubled_loop-each zero d [] out h = refl
doubled_loop-each zero d (x ∷ xs) out h = absurd (omega arith)
doubled_loop-each (suc fuel) d xs out h = elim (Option-cases (next_doubled_quote d xs)) [
  | inl e ↦
      doubled_loop_done fuel d xs out e
      ∙ ap (λ t. written (out ++ t) tt)
          (sym (each_kept _ _ (doubled_keeps d.quote) xs (next_doubled_quote-none d xs e)))
  | inr (m, e) ↦
      let found = next_doubled_quote-FoundAt d xs m e in
      let r = round _ _ (doubled_keeps d.quote) found in
      doubled_loop_step fuel d xs out m e
      ∙ doubled_loop-each fuel d (drop (index m + 1) xs)
          ((out ++ take (index m) xs) ++ (d.quote ∷ d.quote ∷ [])) (omega (arith, r.shorter))
      ∙ ap (λ t. written t tt) (advance out r (doubled_found d.quote found.byte found.fits))
]

backslash_loop_done :
    (fuel : ℕ) (d : Dialect) (escape : ℕ) (xs out : Bytes)
    → next_backslash_escape d escape xs ≡ none
    → backslash_loop (suc fuel) d escape xs out ≡ written (out ++ xs) tt
unfolding backslash_loop
backslash_loop_done fuel d escape xs out e = rw (e, backslash_loop)

backslash_loop_step :
    (fuel : ℕ) (d : Dialect) (escape : ℕ) (xs out : Bytes) (m : EscapeMatch)
    → next_backslash_escape d escape xs ≡ some m
    → backslash_loop (suc fuel) d escape xs out
      ≡ backslash_loop fuel d escape
          (drop (index m + 1) xs)
          ((out ++ take (index m) xs) ++ (escape ∷ (byte_at (index m) xs)))
unfolding backslash_loop
backslash_loop_step fuel d escape xs out m e = rw (e, backslash_loop)

next_backslash_escape-none :
    (d : Dialect) (escape : ℕ) (xs : Bytes)
    → next_backslash_escape d escape xs ≡ none
    → any (contains (d.quote ∷ escape ∷ [])) xs ≡ false
unfolding next_backslash_escape
next_backslash_escape-none d escape xs e =
    next_match-none (λ x. x == d.quote || x == escape) (contains (d.quote ∷ escape ∷ [])) xs e

next_backslash_escape-FoundAt :
    (d : Dialect) (escape : ℕ) (xs : Bytes) (m : EscapeMatch)
    → next_backslash_escape d escape xs ≡ some m
    → FoundAt (contains (d.quote ∷ escape ∷ [])) xs (index m)
unfolding next_backslash_escape
next_backslash_escape-FoundAt d escape xs m e =
    next_match-some (λ x. x == d.quote || x == escape) (contains (d.quote ∷ escape ∷ []))
      (λ x t. ground arith) xs m e

pub backslash_loop-each :
    (fuel : ℕ) (d : Dialect) (escape : ℕ) (xs out : Bytes)
    → length xs ≤ fuel
    → backslash_loop fuel d escape xs out ≡ written (out ++ each (backslashed d.quote escape) xs) tt
unfolding backslash_loop
backslash_loop-each zero d escape [] out h = refl
backslash_loop-each zero d escape (x ∷ xs) out h = absurd (omega arith)
backslash_loop-each (suc fuel) d escape xs out h =
    elim (Option-cases (next_backslash_escape d escape xs)) [
      | inl e ↦
          backslash_loop_done fuel d escape xs out e
          ∙ ap (λ t. written (out ++ t) tt)
              (sym (
                each_kept _ _ (backslashed_keeps d.quote escape) xs
                  (next_backslash_escape-none d escape xs e)))
      | inr (m, e) ↦
          let found = next_backslash_escape-FoundAt d escape xs m e in
          let r = round _ _ (backslashed_keeps d.quote escape) found in
          backslash_loop_step fuel d escape xs out m e
          ∙ backslash_loop-each fuel d escape (drop (index m + 1) xs)
              ((out ++ take (index m) xs) ++ (escape ∷ (byte_at (index m) xs)))
              (omega (arith, r.shorter))
          ∙ ap (λ t. written t tt)
              (advance out r (
                backslashed_found d.quote escape found.byte found.fits
                ∙ ap (λ t. escape ∷ t) (sym r.here)))
    ]
