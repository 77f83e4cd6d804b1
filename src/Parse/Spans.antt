-- ===== src/Parse/Spans.antt =====
-- crates/coseva_unsafe/src/span.rs: where a field's bytes lie, and the spans of one record. The two
-- flags that `Span` packs into the high bits of its offsets are fields of their own here.
use coseva.Prelude.{
  ℕ, zero, suc, ◌+◌, ◌-◌, Bool, true, false, List, [], ◌∷◌, ◌++◌, Option, none, some, ◌&&◌, ◌||◌,
  not, ltb, leb, ◌==◌, if◌then◌else◌, Bytes, length, take, drop, map, get_elem?,
}

pub data Source : Type 0 where
  in_input in_scratch : Source

pub record Span : Type 0 where
  pub source : Source
  pub start : ℕ
  pub end : ℕ
  pub quoted : Bool
  pub null : Bool

-- `Span::MAX_OFFSET` on a 64-bit target
abbrev pub max_offset : ℕ
max_offset = 4611686018427387903

-- `&slice[start..end]`, for ordered offsets within it
abbrev pub slice : Bytes → ℕ → ℕ → Bytes
slice bytes start end = take (end - start) (drop start bytes)

-- `resolve_span`
abbrev pub backing : Source → Bytes → Bytes → Bytes
backing Source.in_input input scratch = input
backing Source.in_scratch input scratch = scratch

unfoldable pub resolve_span : Bytes → Bytes → Span → Bytes
resolve_span input scratch span = slice (backing span.source input scratch) span.start span.end

-- `try_push_input_bounded` and `try_push_scratch_bounded`: the spans with the new one, or `none`
unfoldable pub try_push_input_bounded : List Span → ℕ → ℕ → ℕ → Bool → ℕ → ℕ → Option (List Span)
try_push_input_bounded spans input_len start end quoted max_fields max_field_bytes =
    if ltb end start
    then none
    else if leb max_fields (length spans) || ltb max_field_bytes (end - start) || ltb input_len end
    then none
    else some (
        spans
        ++ (record {
          source = Source.in_input;
          start = start;
          end = end;
          quoted = quoted;
          null = false;
        }
            ∷ []))

unfoldable pub try_push_scratch_bounded :
    List Span → ℕ → ℕ → ℕ → ℕ → Bool → ℕ → ℕ → Option (List Span)
try_push_scratch_bounded spans input_len scratch_len start end quoted max_fields max_field_bytes =
    if ltb end start
    then none
    else if leb max_fields (length spans)
        || ltb max_field_bytes (end - start)
        || ltb scratch_len end
        || ltb input_len end
    then none
    else some (
        spans
        ++ (record {
          source = Source.in_scratch;
          start = start;
          end = end;
          quoted = quoted;
          null = false;
        }
            ∷ []))

-- `Span::from_valid_null(Source::Input, offset)`
abbrev pub null_span : ℕ → Span
null_span offset = record {
  source = Source.in_input;
  start = offset;
  end = offset;
  quoted = false;
  null = true;
}

-- `source == Source::Input`
abbrev pub is_input : Source → Bool
is_input Source.in_input = true
is_input Source.in_scratch = false

-- one span of `mark_input_nulls`
unfoldable pub mark_input_null : (Bytes → Bool) → Bytes → Span → Span
mark_input_null is_null input span =
    if not span.quoted && is_input span.source && is_null (slice input span.start span.end)
    then null_span span.start
    else span

unfoldable pub mark_input_nulls : (Bytes → Bool) → Bytes → List Span → List Span
unfolding mark_input_null
mark_input_nulls is_null input spans = map (mark_input_null is_null input) spans

-- `u8::is_ascii_whitespace`
abbrev pub is_ascii_whitespace : Option ℕ → Bool
is_ascii_whitespace none = false
is_ascii_whitespace (some b) = b == b' ' || b == b'\t' || b == b'\n' || b == 0x0C || b == b'\r'

-- the two loops of `Span::trim_ascii`, on fuel: the width of the span is enough
unfoldable pub trim_front : ℕ → Bytes → ℕ → ℕ → ℕ
trim_front zero bytes start end = start
trim_front (suc fuel) bytes start end =
    let rest = trim_front fuel bytes (start + 1) end in
    if ltb start end && is_ascii_whitespace (get_elem? bytes start) then rest else start

unfoldable pub trim_back : ℕ → Bytes → ℕ → ℕ → ℕ
trim_back zero bytes start end = end
trim_back (suc fuel) bytes start end =
    let rest = trim_back fuel bytes start (end - 1) in
    if ltb start end && is_ascii_whitespace (get_elem? bytes (end - 1)) then rest else end

unfoldable pub trim_ascii : Bytes → Bytes → Span → Span
unfolding trim_front trim_back
trim_ascii input scratch span =
    if span.null
    then span
    else let bytes = backing span.source input scratch in
      let start = trim_front (span.end - span.start) bytes span.start span.end in
      record span { start = start; end = trim_back (span.end - start) bytes start span.end }

unfoldable pub trim_ascii_where : (Bool → Bool) → Bytes → Bytes → List Span → List Span
unfolding trim_ascii
trim_ascii_where should_trim input scratch spans =
    map (λ span. if should_trim span.quoted then trim_ascii input scratch span else span) spans
