-- ===== src/Emit/Field.antt =====
-- crates/coseva/src/emit.rs: how one field is written under each policy.
pub mod Framing
pub mod Rounds
mod Loops
pub mod Quoted
pub mod Orderly
use coseva.Prelude.{
  ℕ, zero, suc, ◌+◌, ◌-◌, Bool, true, false, List, [], ◌∷◌, ◌++◌, Option, none, some, not, ◌&&◌,
  ◌||◌, ◌==◌, if◌then◌else◌, Bytes, length, take, drop, bytes_eq, starts_with, is_empty, holds,
}
use coseva.Error.{Error, ErrorKind, detailed}
use coseva.Search.{find1, find2}
use coseva.Config.Tail.{Tail, is_empty_tail, as_slice}
use coseva.Config.Options.{
  Escape, double_quote, backslash, mysql_escape, unquoted, unquoted_byte, escapes_unquoted,
  terminator, is_crlf, Quoting, Nulls,
}
use coseva.Config.Dialect.{Dialect, csv}
use coseva.Config.Equality.{dialect_eq}
use coseva.Emit.Scan.{needs_quotes, needs_csv_quotes, bom, starts_comment}
use coseva.Emit.Writer.{Writer, ◌>>=◌, ◌>>◌, return, extend, push, refuse, unreachable}

-- `EscapeMatch` and its `index`
pub data EscapeMatch : Type 0 where
  leading : EscapeMatch
  later : ℕ → EscapeMatch

abbrev pub index : EscapeMatch → ℕ
index leading = 0
index (later i) = i

abbrev pub later_match : Option ℕ → Option EscapeMatch
later_match none = none
later_match (some i) = some (later i)

-- `remaining.first() == Some(&byte)`
abbrev pub first_is : Bytes → (ℕ → Bool) → Bool
first_is [] p = false
first_is (x ∷ xs) p = p x

next_doubled_quote : Dialect → Bytes → Option EscapeMatch
unfolding find1
next_doubled_quote d remaining =
    if first_is remaining (λ x. x == d.quote)
    then some leading
    else later_match (find1 d.quote remaining)

next_backslash_escape : Dialect → ℕ → Bytes → Option EscapeMatch
unfolding find2
next_backslash_escape d escape remaining =
    if first_is remaining (λ x. x == d.quote || x == escape)
    then some leading
    else later_match (find2 d.quote escape remaining)

-- The two `while let` loops of `write_quoted`. Each round takes a byte at least, so the length of
-- the field is fuel enough.
unfoldable pub doubled_loop : ℕ → Dialect → Bytes → Writer (Unit {0})
unfolding next_doubled_quote
doubled_loop zero d remaining = extend remaining
doubled_loop (suc fuel) d remaining = elim (next_doubled_quote d remaining) [
  | none ↦ extend remaining
  | some found ↦ do
    extend (take (index found) remaining)
    extend (d.quote ∷ d.quote ∷ [])
    doubled_loop fuel d (drop (index found + 1) remaining)
]

-- `remaining[at]`, at an index that the search found
abbrev byte_at : ℕ → Bytes → Bytes
byte_at i xs = take 1 (drop i xs)

unfoldable pub backslash_loop : ℕ → Dialect → ℕ → Bytes → Writer (Unit {0})
unfolding next_backslash_escape
backslash_loop zero d escape remaining = extend remaining
backslash_loop (suc fuel) d escape remaining = elim (next_backslash_escape d escape remaining) [
  | none ↦ extend remaining
  | some found ↦ do
    extend (take (index found) remaining)
    extend (escape ∷ byte_at (index found) remaining)
    backslash_loop fuel d escape (drop (index found + 1) remaining)
]

-- the `match dialect.escape` of `write_quoted`
quoted_body : Escape → Dialect → Bytes → Writer (Unit {0})
unfolding doubled_loop backslash_loop
quoted_body double_quote d field = doubled_loop (length field) d field
quoted_body (backslash escape) d field = backslash_loop (length field) d escape field
quoted_body mysql_escape d field = unreachable
quoted_body (unquoted escape) d field = unreachable

unfoldable pub write_quoted : Dialect → Bytes → Writer (Unit {0})
unfolding quoted_body
write_quoted d field = do push d.quote; quoted_body d.escape d field; push d.quote

-- The loop of `write_csv_necessary`.
unfoldable pub csv_loop : ℕ → Bytes → Writer (Unit {0})
unfolding find1
csv_loop zero remaining = extend remaining
csv_loop (suc fuel) remaining = elim (find1 b'"' remaining) [
  | none ↦ extend remaining
  | some at ↦ do
    extend (take at remaining)
    extend (b'"' ∷ b'"' ∷ [])
    csv_loop fuel (drop (at + 1) remaining)
]

unfoldable pub write_csv_necessary : Bytes → Bool → Writer (Unit {0})
unfolding needs_csv_quotes csv_loop
write_csv_necessary field is_first =
    if needs_csv_quotes field is_first
    then (do push b'"'; csv_loop (length field) field; push b'"')
    else extend field

unfoldable pub write_necessary : Dialect → Bytes → Bool → Writer (Unit {0})
unfolding needs_quotes write_quoted
write_necessary d field is_first =
    if needs_quotes d field is_first then write_quoted d field else extend field

unfoldable pub write_unquoted : Dialect → Bytes → Bool → Writer (Unit {0})
unfolding needs_quotes
write_unquoted d field is_first =
    if needs_quotes d field is_first
    then refuse (detailed ErrorKind.encode "field requires quoting")
    else extend field

unfoldable pub write_delimiter : Dialect → Writer (Unit {0})
write_delimiter d = do
  push d.delimiter
  if is_empty_tail d.delimiter_tail then return tt else extend (as_slice d.delimiter_tail)

unfoldable pub finish_record : Dialect → Writer (Unit {0})
finish_record d = do
  if is_crlf d.record_ending then push b'\r' else return tt
  push (terminator d.record_ending)
  if is_empty_tail d.ending_tail then return tt else extend (as_slice d.ending_tail)
