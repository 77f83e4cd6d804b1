-- ===== src/Config/Dialect/Sound.antt =====
-- What passes validation: `Dialect::invalidity` against a description of a usable dialect.
use coseva.Prelude.{
  ℕ, ◌≤◌, true, false, Option, none, some, ◌≡◌, ◌≢◌, ◌↔◌, inl, inr, refl, ◌==◌, ◌||◌, any, All,
  Bytes, arith, Bool-cases, [], ◌∷◌, or_false_split,
}
use coseva.Config.Tail.{Tail, unusable, as_slice, max_tail}
use coseva.Config.Options.{
  Escape, double_quote, backslash, mysql_escape, unquoted, unquoted_byte, RecordEnding, newline,
  crlf, ending_byte, terminator, is_crlf,
}
use coseva.Config.Dialect.{
  Dialect, invalidity, quoted_escape, contains_structure, multibyte, comment_conflicts,
  is_ending_byte, multibyte_invalidity, escape_invalidity, comment_invalidity,
}

-- The byte that an escape style reserves keeps clear of the delimiter, the quote and the ending.
abbrev IsClear : Dialect → ℕ → Type 0
IsClear d b = (b ≢ d.delimiter) × (b ≢ d.quote) × (b ≢ terminator d.record_ending)

abbrev pub EscapeIsClear : Escape → Dialect → Type 0
EscapeIsClear double_quote d = Unit
EscapeIsClear (backslash e) d = IsClear d e
EscapeIsClear mysql_escape d = IsClear d b'\\'
EscapeIsClear (unquoted e) d = IsClear d e

abbrev CommentIsClear : Option ℕ → Dialect → Type 0
CommentIsClear none d = Unit
CommentIsClear (some c) d =
    IsClear d c × (unquoted_byte d.escape ≢ some c) × (d.record_ending ≡ crlf → c ≢ b'\r')

-- A separator's further bytes: at most three, none of them the quote or the escape.
abbrev TailIsClear : Dialect → Tail → Type 0
TailIsClear d t = (t.len ≤ max_tail) × All (λ b. (b ≢ d.quote) × (b ≢ quoted_escape d)) (as_slice t)

abbrev pub HasEndingByte : RecordEnding → Type 0
HasEndingByte e = (b : ℕ) × (e ≡ ending_byte b)

-- A dialect that the validation passes.
pub record IsUsable (d : Dialect) : Type 0 where
  pub delimiter_ne_quote : d.delimiter ≢ d.quote
  pub terminator_ne_delimiter : terminator d.record_ending ≢ d.delimiter
  pub terminator_ne_quote : terminator d.record_ending ≢ d.quote
  pub carriage_return_free : d.record_ending ≡ crlf → (d.delimiter ≢ b'\r') × (d.quote ≢ b'\r')
  pub escape_clear : EscapeIsClear d.escape d
  pub comment_clear : CommentIsClear d.comment d
  pub delimiter_tail_clear : TailIsClear d d.delimiter_tail
  pub ending_tail_clear : TailIsClear d d.ending_tail
  pub ending_spelled : d.ending_tail.len ≢ 0 → HasEndingByte d.record_ending

any-All :
    (p q : ℕ) (xs : Bytes)
    → any (λ b. b == p || b == q) xs ≡ false
    → All (λ b. (b ≢ p) × (b ≢ q)) xs
any-All p q [] h = tt
any-All p q (x ∷ xs) h =
    let (here, later) = or_false_split (x == p || x == q) (any (λ b. b == p || b == q) xs) h in
    (ground arith, any-All p q xs later)

All-any :
    (p q : ℕ) (xs : Bytes)
    → All (λ b. (b ≢ p) × (b ≢ q)) xs
    → any (λ b. b == p || b == q) xs ≡ false
All-any p q [] h = refl
All-any p q (x ∷ xs) h = ground (arith, All-any p q xs h.1)

escape_iff : (e : Escape) (d : Dialect) → (escape_invalidity e d ≡ none) ↔ EscapeIsClear e d
unfolding escape_invalidity
escape_iff double_quote d = (λ h. tt, λ h. refl)
escape_iff (backslash e) d = ground arith
escape_iff mysql_escape d = ground arith
escape_iff (unquoted e) d = ground arith

comment_iff : (c : Option ℕ) (d : Dialect) → (comment_conflicts c d ≡ false) ↔ CommentIsClear c d
unfolding comment_conflicts
comment_iff none d = (λ h. tt, λ h. refl)
comment_iff (some c) d = ground arith

clear_iff :
    (d : Dialect) (t : Tail)
    → (unusable t ≡ false) × (contains_structure d t ≡ false) ↔ TailIsClear d t
unfolding contains_structure
clear_iff d t = (
  λ h. (ground arith, any-All d.quote (quoted_escape d) (as_slice t) h.1),
  λ h. (ground arith, All-any d.quote (quoted_escape d) (as_slice t) h.1),
)

empty-TailIsClear : (d : Dialect) (t : Tail) → t.len ≡ 0 → TailIsClear d t
empty-TailIsClear d t h = rw h (omega arith, tt)

ending_byte_iff : (e : RecordEnding) → (is_ending_byte e ≡ true) ↔ HasEndingByte e
unfolding is_ending_byte
ending_byte_iff newline = (λ h. cc, λ h. cc (h.1))
ending_byte_iff crlf = (λ h. cc, λ h. cc (h.1))
ending_byte_iff (ending_byte b) = (λ h. (b, refl), λ h. refl)

record TailsAreClear (d : Dialect) : Type 0 where
  delimiter_tail_clear : TailIsClear d d.delimiter_tail
  ending_tail_clear : TailIsClear d d.ending_tail
  ending_spelled : d.ending_tail.len ≢ 0 → HasEndingByte d.record_ending

multi_parts :
    (d : Dialect)
    → multibyte_invalidity d ≡ none
    → multibyte d ≡ true
    → (unusable d.delimiter_tail ≡ false)
      × (contains_structure d d.delimiter_tail ≡ false)
      × (unusable d.ending_tail ≡ false)
      × (contains_structure d d.ending_tail ≡ false)
      × (d.ending_tail.len ≢ 0 → is_ending_byte d.record_ending ≡ true)
unfolding multibyte_invalidity multibyte
multi_parts d h m = unfold multibyte_invalidity in ground arith

single_parts :
    (d : Dialect) → multibyte d ≡ false → (d.delimiter_tail.len ≡ 0) × (d.ending_tail.len ≡ 0)
unfolding multibyte
single_parts d h = ground arith

tails_sound : (d : Dialect) → multibyte_invalidity d ≡ none → TailsAreClear d
tails_sound d h = elim (Bool-cases (multibyte d)) [
  | inl m ↦
      let (a, b, c, e, f) = multi_parts d h m in
      record {
        delimiter_tail_clear = (clear_iff d d.delimiter_tail).0 (a, b);
        ending_tail_clear = (clear_iff d d.ending_tail).0 (c, e);
        ending_spelled = λ n. (ending_byte_iff d.record_ending).0 (f n);
      }
  | inr s ↦
      let (a, b) = single_parts d s in
      record {
        delimiter_tail_clear = empty-TailIsClear d d.delimiter_tail a;
        ending_tail_clear = empty-TailIsClear d d.ending_tail b;
        ending_spelled = λ n. absurd (n b);
      }
]

tails_complete :
    (d : Dialect)
    → (unusable d.delimiter_tail ≡ false) × (contains_structure d d.delimiter_tail ≡ false)
    → (unusable d.ending_tail ≡ false) × (contains_structure d d.ending_tail ≡ false)
    → (d.ending_tail.len ≢ 0 → is_ending_byte d.record_ending ≡ true)
    → multibyte_invalidity d ≡ none
unfolding multibyte_invalidity multibyte
tails_complete d p q f = ground (arith)

tails_iff : (d : Dialect) → (multibyte_invalidity d ≡ none) ↔ TailsAreClear d
tails_iff d = (
  tails_sound d,
  λ t.
      tails_complete d ((clear_iff d d.delimiter_tail).1 t.delimiter_tail_clear)
        ((clear_iff d d.ending_tail).1 t.ending_tail_clear)
        (λ n. (ending_byte_iff d.record_ending).1 (t.ending_spelled n)),
)

-- The tests that come before the tails.
record BytesAreClear (d : Dialect) : Type 0 where
  delimiter_ne_quote : d.delimiter ≢ d.quote
  terminator_ne_delimiter : terminator d.record_ending ≢ d.delimiter
  terminator_ne_quote : terminator d.record_ending ≢ d.quote
  carriage_return_free : d.record_ending ≡ crlf → (d.delimiter ≢ b'\r') × (d.quote ≢ b'\r')
  escape_passes : escape_invalidity d.escape d ≡ none
  comment_passes : comment_conflicts d.comment d ≡ false
  tails_pass : multibyte_invalidity d ≡ none

is_crlf_iff : (e : RecordEnding) → (is_crlf e ≡ true) ↔ (e ≡ crlf)
is_crlf_iff e = ground arith

invalidity_sound : (d : Dialect) → invalidity d ≡ none → BytesAreClear d
invalidity_sound d h = unfold invalidity comment_invalidity in ground (arith)

invalidity_complete : (d : Dialect) → BytesAreClear d → invalidity d ≡ none
invalidity_complete d h =
    unfold invalidity comment_invalidity in ground (arith, is_crlf_iff d.record_ending)

-- A dialect passes `Dialect::invalidity` exactly when the delimiter, the quote and the record
-- ending's byte differ in pairs, neither the delimiter nor the quote of a CRLF dialect is a carriage
-- return, the escape is none of those three bytes, the comment byte is none of them, no escape read
-- outside quotes and no carriage return of a CRLF dialect, each tail has at most three bytes and
-- holds neither the quote nor the escape, and a tail of the ending goes with an ending spelled as a
-- byte. The escape of a CRLF dialect may be a carriage return.
pub invalidity-IsUsable : (d : Dialect) → (invalidity d ≡ none) ↔ IsUsable d
invalidity-IsUsable d = (
  λ h.
      let b = invalidity_sound d h in
      let t = (tails_iff d).0 b.tails_pass in
      record {
        delimiter_ne_quote = b.delimiter_ne_quote;
        terminator_ne_delimiter = b.terminator_ne_delimiter;
        terminator_ne_quote = b.terminator_ne_quote;
        carriage_return_free = b.carriage_return_free;
        escape_clear = (escape_iff d.escape d).0 b.escape_passes;
        comment_clear = (comment_iff d.comment d).0 b.comment_passes;
        delimiter_tail_clear = t.delimiter_tail_clear;
        ending_tail_clear = t.ending_tail_clear;
        ending_spelled = t.ending_spelled;
      },
  λ u. invalidity_complete d (record {
    delimiter_ne_quote = u.delimiter_ne_quote;
    terminator_ne_delimiter = u.terminator_ne_delimiter;
    terminator_ne_quote = u.terminator_ne_quote;
    carriage_return_free = u.carriage_return_free;
    escape_passes = (escape_iff d.escape d).1 u.escape_clear;
    comment_passes = (comment_iff d.comment d).1 u.comment_clear;
    tails_pass = (tails_iff d).1 (record {
      delimiter_tail_clear = u.delimiter_tail_clear;
      ending_tail_clear = u.ending_tail_clear;
      ending_spelled = u.ending_spelled;
    });
  }),
)
