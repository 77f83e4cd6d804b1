-- ===== src/Emit/Scan/Agree.antt =====
-- The two forms of the quoting test answer what a test of every byte answers.
use Prim.Native.Nat.{bit_or}
use coseva.Prelude.{
  ℕ, Bool, true, false, not, ◌&&◌, ◌||◌, [], ◌∷◌, ◌++◌, ◌≡◌, refl, sym, ap, ap₂, ◌∙◌, arith, ◌==◌,
  leb, if◌then◌else◌, any, All, IsByte, Bytes, length, starts_with, Bool-cases, inl, inr,
}
use coseva.Prelude.Bits.{bit_or-eq-zero}
use coseva.Search.{is_some-position, contains}
use coseva.Config.Options.{terminator, is_newline}
use coseva.Config.Dialect.{Dialect, csv}
use coseva.Emit.Scan.{
  chunks, remainder, bom, is_csv_special, csv_word_hit, needs_csv_quotes, starts_comment,
  needs_quotes_blocks, word_hit, is_special, needs_quotes_words, needs_quotes,
  simd_quoting_scan_bytes,
}
use coseva.Emit.Scan.Words.{matches-any}

union-zero : (x y : ℕ) → (bit_or x y == 0) ≡ ((x == 0) && (y == 0))
union-zero x y = elim (Bool-cases (bit_or x y == 0)) [
  | inl e ↦ ground (arith, bit_or-eq-zero x y)
  | inr e ↦ ground (arith)
]

-- The tests on the masks, from what each mask answers.
hit_all :
    (newline : Bool) (md mq me mr : ℕ) (a b c d : Bool)
    → (md == 0) ≡ not a
    → (mq == 0) ≡ not b
    → (me == 0) ≡ not c
    → (mr == 0) ≡ not d
    → not
        ((if newline then bit_or (bit_or (bit_or md mq) me) mr else bit_or (bit_or md mq) me) == 0)
      ≡ (a || (b || (c || (newline && d))))
hit_all true md mq me mr a b c d ha hb hc hd = ground (
  arith,
  union-zero (bit_or (bit_or md mq) me) mr,
  union-zero (bit_or md mq) me,
  union-zero md mq,
)
hit_all false md mq me mr a b c d ha hb hc hd =
    ground (arith, union-zero (bit_or md mq) me, union-zero md mq)

any-or : (p q : ℕ → Bool) (xs : Bytes) → any (λ x. p x || q x) xs ≡ (any p xs || any q xs)
any-or p q [] = refl
any-or p q (x ∷ xs) = ground (arith, any-or p q xs)

any-and : (b : Bool) (q : ℕ → Bool) (xs : Bytes) → any (λ x. b && q x) xs ≡ (b && any q xs)
any-and true q xs = refl
any-and false q [] = refl
any-and false q (x ∷ xs) = any-and false q xs

any_ext : (p q : ℕ → Bool) → ((x : ℕ) → p x ≡ q x) → (xs : Bytes) → any p xs ≡ any q xs
any_ext p q h [] = refl
any_ext p q h (x ∷ xs) = ap₂ ◌||◌ (h x) (any_ext p q h xs)

module _ (delimiter quote ending : ℕ) (newline : Bool) where
  abbrev special : ℕ → Bool
  special = is_special delimiter quote ending newline

  special-any :
      (xs : Bytes)
      → any special xs ≡ (
          any (λ x. x == delimiter) xs
          || (any (λ x. x == quote) xs
              || (any (λ x. x == ending) xs || (newline && any (λ x. x == b'\r') xs))))
  special-any [] = ground arith
  special-any (x ∷ xs) = ground (arith, special-any xs)

  module _ (hd : IsByte delimiter) (hq : IsByte quote) (he : IsByte ending) where
    word_hit-any :
        (a0 a1 a2 a3 a4 a5 a6 a7 : ℕ)
        → All IsByte (a0 ∷ a1 ∷ a2 ∷ a3 ∷ a4 ∷ a5 ∷ a6 ∷ a7 ∷ [])
        → word_hit delimiter quote ending newline (a0 ∷ a1 ∷ a2 ∷ a3 ∷ a4 ∷ a5 ∷ a6 ∷ a7 ∷ [])
          ≡ any special (a0 ∷ a1 ∷ a2 ∷ a3 ∷ a4 ∷ a5 ∷ a6 ∷ a7 ∷ [])
    word_hit-any a0 a1 a2 a3 a4 a5 a6 a7 h =
        let xs : Bytes = a0 ∷ a1 ∷ a2 ∷ a3 ∷ a4 ∷ a5 ∷ a6 ∷ a7 ∷ [] in
        unfold word_hit in
        (hit_all newline _ _ _ _ _ _ _ _ (matches-any delimiter a0 a1 a2 a3 a4 a5 a6 a7 hd h)
            (matches-any quote a0 a1 a2 a3 a4 a5 a6 a7 hq h)
            (matches-any ending a0 a1 a2 a3 a4 a5 a6 a7 he h)
            (matches-any b'\r' a0 a1 a2 a3 a4 a5 a6 a7 (omega arith) h)
          ∙ sym (special-any xs))

or_assoc : (a b c : Bool) → ((a || b) || c) ≡ (a || (b || c))
or_assoc true b c = refl
or_assoc false b c = refl

any-append : (p : ℕ → Bool) (xs ys : Bytes) → any p (xs ++ ys) ≡ (any p xs || any p ys)
any-append p [] ys = refl
any-append p (x ∷ xs) ys =
    ap (λ t. p x || t) (any-append p xs ys) ∙ sym (or_assoc (p x) (any p xs) (any p ys))

-- A test of whole blocks and of the bytes behind them is a test of every byte.
module _ (hit : Bytes → Bool) (test : ℕ → Bool)
    (block : (a0 a1 a2 a3 a4 a5 a6 a7 : ℕ)
      → All IsByte (a0 ∷ a1 ∷ a2 ∷ a3 ∷ a4 ∷ a5 ∷ a6 ∷ a7 ∷ [])
      → hit (a0 ∷ a1 ∷ a2 ∷ a3 ∷ a4 ∷ a5 ∷ a6 ∷ a7 ∷ [])
        ≡ any test (a0 ∷ a1 ∷ a2 ∷ a3 ∷ a4 ∷ a5 ∷ a6 ∷ a7 ∷ [])) where
  chunked :
      (xs : Bytes) → All IsByte xs → (any hit (chunks xs) || any test (remainder xs)) ≡ any test xs
  chunked (a0 ∷ a1 ∷ a2 ∷ a3 ∷ a4 ∷ a5 ∷ a6 ∷ a7 ∷ rest) h =
      let xs : Bytes = a0 ∷ a1 ∷ a2 ∷ a3 ∷ a4 ∷ a5 ∷ a6 ∷ a7 ∷ [] in
      let first : All IsByte xs = omega arith in
      let later : All IsByte rest = h.1.1.1.1.1.1.1.1 in
      or_assoc (hit xs) (any hit (chunks rest)) (any test (remainder rest))
      ∙ ap₂ ◌||◌ (block a0 a1 a2 a3 a4 a5 a6 a7 first) (chunked rest later)
      ∙ sym (any-append test xs rest)
  chunked _ h = refl

if_or : (a b : Bool) → (if a then true else b) ≡ (a || b)
if_or true b = refl
if_or false b = refl

-- The word scan and the block scan of a field, against the test of every byte.
pub words-any :
    (delimiter quote ending : ℕ) (newline : Bool) (field : Bytes)
    → IsByte delimiter
    → IsByte quote
    → IsByte ending
    → All IsByte field
    → needs_quotes_words delimiter quote ending newline field
      ≡ any (is_special delimiter quote ending newline) field
unfolding needs_quotes_words
words-any d q e newline field hd hq he h =
    if_or (any (word_hit d q e newline) (chunks field))
      (any (is_special d q e newline) (remainder field))
    ∙ chunked (word_hit d q e newline) (is_special d q e newline)
        (word_hit-any d q e newline hd hq he) field h

blocks_true : (d q e x : ℕ) → contains (d ∷ q ∷ e ∷ b'\r' ∷ []) x ≡ is_special d q e true x
blocks_true d q e x = ground arith

blocks_false : (d q e x : ℕ) → contains (d ∷ q ∷ e ∷ []) x ≡ is_special d q e false x
blocks_false d q e x = ground arith

pub blocks-any :
    (delimiter quote ending : ℕ) (newline : Bool) (field : Bytes)
    → needs_quotes_blocks delimiter quote ending newline field
      ≡ any (is_special delimiter quote ending newline) field
blocks-any d q e true field =
    unfold needs_quotes_blocks in
    (is_some-position (contains (d ∷ q ∷ e ∷ b'\r' ∷ [])) field
      ∙ any_ext _ _ (blocks_true d q e) field)
blocks-any d q e false field =
    unfold needs_quotes_blocks in
    (is_some-position (contains (d ∷ q ∷ e ∷ [])) field ∙ any_ext _ _ (blocks_false d q e) field)

-- What the dialects' structural bytes are: bytes.
pub record HasBytes (d : Dialect) : Type 0 where
  pub delimiter_byte : IsByte d.delimiter
  pub quote_byte : IsByte d.quote
  pub terminator_byte : IsByte (terminator d.record_ending)

-- the bytes that force quotes under a dialect
abbrev pub forces_quotes : Dialect → ℕ → Bool
forces_quotes d =
    is_special d.delimiter d.quote (terminator d.record_ending) (is_newline d.record_ending)

pick :
    (c w : Bool) {block words answer : Bool}
    → block ≡ answer
    → words ≡ answer
    → (if c then true else if w then block else words) ≡ (c || answer)
pick true w p q = refl
pick false true p q = p
pick false false p q = q

or_false : (b : Bool) → (b || false) ≡ b
or_false true = refl
or_false false = refl

-- Whatever the field's width, the test asks of every byte whether it is the delimiter, the quote,
-- the record ending's byte or, in a line-ending dialect, a carriage return; a first field is also
-- quoted for a leading BOM or comment byte.
pub needs_quotes-any :
    (d : Dialect) (field : Bytes) (is_first : Bool)
    → HasBytes d
    → All IsByte field
    → needs_quotes d field is_first ≡ (
        (is_first && (starts_with field bom || starts_comment d.comment field))
        || any (forces_quotes d) field)
needs_quotes-any d field is_first b h =
    let e =
      words-any d.delimiter d.quote (terminator d.record_ending) (is_newline d.record_ending) field
        b.delimiter_byte b.quote_byte b.terminator_byte h in
    unfold needs_quotes in
    (pick (is_first && (starts_with field bom || starts_comment d.comment field))
      (leb simd_quoting_scan_bytes (length field))
      (blocks-any d.delimiter d.quote (terminator d.record_ending) (is_newline d.record_ending)
        field)
      e)

pub csv-HasBytes : HasBytes csv
csv-HasBytes = record {
  delimiter_byte = omega arith;
  quote_byte = omega arith;
  terminator_byte = omega arith;
}

csv_words :
    (field : Bytes)
    → All IsByte field
    → (any csv_word_hit (chunks field) || any is_csv_special (remainder field))
      ≡ any (forces_quotes csv) field
unfolding csv_word_hit word_hit
csv_words field h =
    chunked csv_word_hit (forces_quotes csv)
      (word_hit-any b',' b'"' b'\n' true (omega arith) (omega arith) (omega arith)) field h

needs_csv_quotes-any :
    (field : Bytes) (is_first : Bool)
    → All IsByte field
    → needs_csv_quotes field is_first
      ≡ ((is_first && starts_with field bom) || any (forces_quotes csv) field)
needs_csv_quotes-any field is_first h =
    unfold needs_csv_quotes in
    (pick (is_first && starts_with field bom) (leb simd_quoting_scan_bytes (length field))
      (csv_words field h) refl)

-- The test that is specialised for CSV answers what the general one answers for the CSV dialect.
pub needs_csv_quotes-needs_quotes :
    (field : Bytes) (is_first : Bool)
    → All IsByte field
    → needs_csv_quotes field is_first ≡ needs_quotes csv field is_first
needs_csv_quotes-needs_quotes field is_first h =
    needs_csv_quotes-any field is_first h
    ∙ ap (λ t. (is_first && t) || any (forces_quotes csv) field)
        (sym (or_false (starts_with field bom)))
    ∙ sym (needs_quotes-any csv field is_first csv-HasBytes h)
