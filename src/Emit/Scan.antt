-- ===== src/Emit/Scan.antt =====
-- crates/coseva/src/emit.rs: the tests that decide whether a field needs quotes, in their
-- eight-bytes-at-a-time form and in their search form. A word is read lowest byte first.
pub mod Words
pub mod Agree
use Prim.Native.Nat.{bit_and, bit_or, bit_xor}
use coseva.Prelude.{
  ℕ, ◌+◌, ◌-◌, ◌*◌, ◌/◌, ◌%◌, ◌^◌, Bool, true, false, List, [], ◌∷◌, Option, none, some, not, ◌&&◌,
  ◌||◌, ◌==◌, leb, if◌then◌else◌, any, holds, Bytes, length, starts_with,
}
use coseva.Search.{find3, find4, is_some}
use coseva.Config.Options.{terminator, is_newline}
use coseva.Config.Dialect.{Dialect}

-- `BYTE_ONES`, `BYTE_HIGHS` and `SIMD_QUOTING_SCAN_BYTES`
abbrev pub byte_ones : ℕ
byte_ones = (2 ^ 64 - 1) / 255

abbrev pub byte_highs : ℕ
byte_highs = byte_ones * 2 ^ 7 % 2 ^ 64

abbrev pub simd_quoting_scan_bytes : ℕ
simd_quoting_scan_bytes = 32

unfoldable pub repeated_byte : ℕ → ℕ
repeated_byte b = byte_ones * b

-- `word.wrapping_sub(BYTE_ONES) & !word & BYTE_HIGHS`
unfoldable pub zero_byte_mask : ℕ → ℕ
zero_byte_mask word =
    bit_and (bit_and ((word + 2 ^ 64 - byte_ones) % 2 ^ 64) (2 ^ 64 - 1 - word)) byte_highs

-- the value of a block of bytes, lowest first: `u64::from_ne_bytes` on a little-endian target
abbrev pub word_of : Bytes → ℕ
word_of [] = 0
word_of (b ∷ bs) = b + 256 * word_of bs

-- `as_chunks::<8>`: the whole blocks, and the bytes behind them
abbrev pub chunks : Bytes → List Bytes
chunks (a ∷ b ∷ c ∷ d ∷ e ∷ f ∷ g ∷ h ∷ rest) = (a ∷ b ∷ c ∷ d ∷ e ∷ f ∷ g ∷ h ∷ []) ∷ chunks rest
chunks _ = []

abbrev pub remainder : Bytes → Bytes
remainder (a ∷ b ∷ c ∷ d ∷ e ∷ f ∷ g ∷ h ∷ rest) = remainder rest
remainder short = short

-- the marks of the bytes of `word` that equal `b`
abbrev pub matches : ℕ → ℕ → ℕ
matches word b = zero_byte_mask (bit_xor word (repeated_byte b))

-- `b"\xEF\xBB\xBF"`
abbrev pub bom : Bytes
bom = 0xEF ∷ 0xBB ∷ 0xBF ∷ []

abbrev pub is_csv_special : ℕ → Bool
is_csv_special byte = byte == b',' || byte == b'"' || byte == b'\n' || byte == b'\r'

csv_word_hit : Bytes → Bool
unfolding zero_byte_mask repeated_byte
csv_word_hit chunk =
    let word = word_of chunk in
    not (
      bit_or (bit_or (bit_or (matches word b',') (matches word b'"')) (matches word b'\n'))
        (matches word b'\r')
      == 0)

unfoldable pub needs_csv_quotes : Bytes → Bool → Bool
unfolding csv_word_hit
needs_csv_quotes field is_first =
    if is_first && starts_with field bom
    then true
    else if leb simd_quoting_scan_bytes (length field)
    then any csv_word_hit (chunks field) || any is_csv_special (remainder field)
    else any is_csv_special field

-- `needs_quotes_blocks`, by the portable searches
unfoldable pub needs_quotes_blocks : ℕ → ℕ → ℕ → Bool → Bytes → Bool
unfolding find3 find4
needs_quotes_blocks delimiter quote ending newline field = is_some (
    if newline
    then find4 delimiter quote ending b'\r' field
    else find3 delimiter quote ending field)

word_hit : ℕ → ℕ → ℕ → Bool → Bytes → Bool
unfolding zero_byte_mask repeated_byte
word_hit delimiter quote ending newline chunk =
    let word = word_of chunk in
    let found =
      bit_or (bit_or (matches word delimiter) (matches word quote)) (matches word ending) in
    not ((if newline then bit_or found (matches word b'\r') else found) == 0)

abbrev pub is_special : ℕ → ℕ → ℕ → Bool → ℕ → Bool
is_special delimiter quote ending newline byte =
    byte == delimiter || byte == quote || byte == ending || (newline && byte == b'\r')

unfoldable pub needs_quotes_words : ℕ → ℕ → ℕ → Bool → Bytes → Bool
unfolding word_hit
needs_quotes_words delimiter quote ending newline field =
    if any (word_hit delimiter quote ending newline) (chunks field)
    then true
    else any (is_special delimiter quote ending newline) (remainder field)

-- `dialect.comment.is_some_and(|comment| field.first() == Some(&comment))`
abbrev pub starts_comment : Option ℕ → Bytes → Bool
starts_comment none field = false
starts_comment (some c) [] = false
starts_comment (some c) (x ∷ xs) = x == c

unfoldable pub needs_quotes : Dialect → Bytes → Bool → Bool
unfolding needs_quotes_blocks needs_quotes_words
needs_quotes d field is_first =
    if is_first && (starts_with field bom || starts_comment d.comment field)
    then true
    else if leb simd_quoting_scan_bytes (length field)
    then needs_quotes_blocks d.delimiter d.quote (terminator d.record_ending)
        (is_newline d.record_ending) field
    else needs_quotes_words d.delimiter d.quote (terminator d.record_ending)
        (is_newline d.record_ending) field
