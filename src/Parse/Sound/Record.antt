-- ===== src/Parse/Sound/Record.antt =====
-- The reading of a record ends, and keeps the invariant.
use coseva.Prelude.{
  ℕ, zero, suc, ◌+◌, ◌≤◌, ◌<◌, List, [], ◌∷◌, map, Bool, true, false, Option, none, some, ◌≡◌, refl,
  ◌⊎◌, inl, inr, Bytes, length, All, Bool-cases, arith, ◌==◌, ◌&&◌, ◌||◌, not, if◌then◌else◌,
  if_either, and_left,
}
use coseva.Error.{ErrorKind}
use coseva.Config.Options.{quoting_enabled, FieldCount}
use coseva.Emit.Policy.{no_nulls_set}
use coseva.Parse.Spans.{Span, Source, is_input, mark_input_null, mark_input_nulls, null_span, slice}
use coseva.Parse.Engine.{
  Settings, Engine, Parser, byte_is, needs_general_parsing, check_record_limit_for,
  skip_spaces_loop, skip_delimiter_spaces, expect_count, count_by, validate_field_count,
}
use coseva.Parse.Push.{mark_null_spans, raw_field_is_null}
use coseva.Parse.Unquoted.{parse_unquoted_field_runtime}
use coseva.Parse.General.{parse_general_unquoted_field}
use coseva.Parse.Quoted.{parse_quoted_field_runtime}
use coseva.Parse.Fields.{
  parse_unquoted_field, parse_field, finish_fields, after_field, fields_loop, parse_record_fields,
}
use coseva.Parse.Outcome.{Ends, Ends->>=, Ends-if, Ends-weaken, Keeps, Keeps->>=, byte_is-in_range}
use coseva.Parse.Sound.{IsSound, IsScannable, Fits, room}
use coseva.Parse.Sound.Push.{reject-Ends, move-IsSound}
use coseva.Parse.Sound.Unquoted.{Advances, parse_unquoted_field_runtime-Ends}
use coseva.Parse.Sound.Loop.{parse_quoted_field_runtime-Ends}
use coseva.Parse.Sound.Stops.{parse_general-Ends}

-- A sound state, no further back.
abbrev Forward : Settings → Bytes → Engine → Engine → Unit {0} → Type 0
Forward s input e e' done = IsSound s input e' × (e.location ≤ e'.location)

-- A sound state, past a byte of the input or at its end.
abbrev pub Consumes : Settings → Bytes → Engine → Engine → Unit {0} → Type 0
Consumes s input e e' done =
    IsSound s input e' × ((e.location < e'.location) ⊎ (e'.location ≡ length input))

pub length-map {ℓ κ} :
    {A : Type ℓ} {B : Type κ} (f : A → B) (xs : List A) → length (map f xs) ≡ length xs
length-map f [] = refl
length-map f (x ∷ xs) = omega (arith, length-map f xs)

pub All-map {ℓ κ} :
    {A : Type ℓ} (P : A → Type κ) (f : A → A) (xs : List A)
    → ((x : A) → P x → P (f x))
    → All P xs
    → All P (map f xs)
All-map P f [] h a = tt
All-map P f (x ∷ xs) h a = (h x a.0, All-map P f xs h a.1)

module _ (s : Settings) (input : Bytes) where
  space_checked :
      (record_start field : ℕ) (e : Engine)
      → record_start ≤ e.location
      → Ends (Keeps e (Unit {0})) (check_record_limit_for s input record_start e.location field e)
  unfolding check_record_limit_for
  space_checked record_start field e h = ground arith

  -- the single-byte scan is for the dialects that do not need the general one
  long_records :
      IsScannable s input
      → needs_general_parsing s.dialect s.trim ≡ false
      → length input ≤ s.limits.max_record_bytes
  long_records scannable runtime = elim scannable.unquoted_fields [
    | inl general ↦ cc
    | inr long ↦ long
  ]

  further :
      (e e' e'' : Engine) (ends : Bool)
      → e.location ≤ e'.location
      → (e'.location < e''.location) ⊎ ((e''.location ≡ length input) × (ends ≡ true))
      → (e.location < e''.location) ⊎ ((e''.location ≡ length input) × (ends ≡ true))
  further e e' e'' ends h (inl later) = inl (omega arith)
  further e e' e'' ends h (inr ended) = inr ended

  skip_spaces_loop-Ends :
      (fuel record_start field : ℕ) (e : Engine)
      → IsSound s input e
      → record_start ≤ e.location
      → length input < e.location + fuel
      → Ends (Forward s input e) (skip_spaces_loop s input fuel record_start field e)
  unfolding skip_spaces_loop
  skip_spaces_loop-Ends zero record_start field e sound h k = absurd (omega (arith, sound.located))
  skip_spaces_loop-Ends (suc fuel) record_start field e sound h k =
      elim (Bool-cases (byte_is input e.location b' ')) [
        | inr other ↦ rw (other, skip_spaces_loop) (sound, omega arith)
        | inl space ↦
            let next : Engine = record e { location = e.location + 1 } in
            let inside = byte_is-in_range input e.location b' ' space in
            rw (space, skip_spaces_loop)
              (Keeps->>= (Unit {0}) (Forward s input e)
                (check_record_limit_for s input record_start (e.location + 1) field)
                (skip_spaces_loop s input fuel record_start field) next
                (space_checked record_start field next (omega arith))
                (λ within.
                  Ends-weaken (Forward s input next) (Forward s input e)
                    (skip_spaces_loop s input fuel record_start field next)
                    (skip_spaces_loop-Ends fuel record_start field next
                      (move-IsSound s input e (e.location + 1) e.terminated (omega arith) sound)
                      (omega arith) (omega arith))
                    (λ e' done moved. (moved.0, omega (arith, moved.1)))))
      ]

  skip_delimiter_spaces-Ends :
      (record_start : ℕ) (e : Engine)
      → IsSound s input e
      → record_start ≤ e.location
      → Ends (Forward s input e) (skip_delimiter_spaces s input record_start e)
  unfolding skip_delimiter_spaces
  skip_delimiter_spaces-Ends record_start e sound h =
      if_either (Ends (Forward s input e)) (not s.skip_initial_space || e.location == record_start)
        _ _ (λ nothing. (sound, omega arith))
        (λ skips.
          skip_spaces_loop-Ends (length input + 1) record_start (length e.spans) e sound h
            (omega arith))

  parse_unquoted_field-Ends :
      (record_start : ℕ) (header : Bool) (e : Engine)
      → IsScannable s input
      → IsSound s input e
      → record_start ≤ e.location
      → Ends (Advances s input e) (parse_unquoted_field s input record_start header e)
  unfolding parse_unquoted_field
  parse_unquoted_field-Ends record_start header e scannable sound h =
      Ends-if (Advances s input e) (needs_general_parsing s.dialect s.trim)
        (parse_general_unquoted_field s input record_start header)
        (parse_unquoted_field_runtime s input record_start) e
        (λ general. parse_general-Ends s input record_start header e scannable sound h)
        (λ runtime.
          parse_unquoted_field_runtime-Ends s input record_start e sound h
            (long_records scannable runtime))

  parse_field-Ends :
      (record_start : ℕ) (header : Bool) (e : Engine)
      → IsScannable s input
      → IsSound s input e
      → record_start ≤ e.location
      → Ends (Advances s input e) (parse_field s input record_start header e)
  unfolding parse_field
  parse_field-Ends record_start header e scannable sound h =
      let quoted = parse_quoted_field_runtime s input record_start in
      let unquoted = parse_unquoted_field s input record_start header in
      Ends->>= (Forward s input e) (Advances s input e) (skip_delimiter_spaces s input record_start)
        _ e (skip_delimiter_spaces-Ends record_start e sound h)
        (λ e' done moved.
          Ends-weaken (Advances s input e') (Advances s input e)
            ((if byte_is input e'.location s.dialect.quote && quoting_enabled s.syntax
                then quoted
                else unquoted)
              e')
            (Ends-if (Advances s input e')
              (byte_is input e'.location s.dialect.quote && quoting_enabled s.syntax) quoted
              unquoted e'
              (λ quote.
                parse_quoted_field_runtime-Ends s input record_start e' scannable moved.0
                  (omega (arith, moved.1))
                  (byte_is-in_range input e'.location s.dialect.quote (
                    and_left (byte_is input e'.location s.dialect.quote) (quoting_enabled s.syntax)
                      quote)))
              (λ other.
                parse_unquoted_field-Ends record_start header e' scannable moved.0
                  (omega (arith, moved.1))))
            (λ e'' ends advanced. (advanced.0, further e e' e'' ends moved.1 advanced.1)))

  within_input :
      (size : ℕ) (source : Source) (end : ℕ)
      → is_input source ≡ true
      → end ≤ room (length input) size source
      → end ≤ length input
  within_input size Source.in_input end reads within = within
  within_input size Source.in_scratch end reads within = absurd (cc (reads))

  -- the verdict on the number of fields
  expect_count-Ends :
      (Q : Engine → Unit {0} → Type 0) (expected actual : ℕ) (e : Engine)
      → Q e tt
      → Ends Q (expect_count s input expected actual e)
  unfolding expect_count
  expect_count-Ends Q expected actual e h =
      if_either (Ends Q) (actual == expected) _ _ (λ same. h)
        (λ other.
          reject-Ends s input Q (ErrorKind.field_count_mismatch expected actual) e.location e)

  count_by-Ends :
      (start e : Engine) (policy : FieldCount) (first : Option ℕ) (actual : ℕ)
      → IsSound s input e
      → (start.location < e.location) ⊎ (e.location ≡ length input)
      → Ends (Consumes s input start) (count_by s input policy first actual e)
  unfolding count_by
  count_by-Ends start e FieldCount.flexible first actual sound further = (sound, further)
  count_by-Ends start e (FieldCount.exact expected) first actual sound further =
      expect_count-Ends (Consumes s input start) expected actual e (sound, further)
  count_by-Ends start e FieldCount.match_first none actual sound further = (
    record {
      located = sound.located;
      sized = sound.sized;
      counted = sound.counted;
      fitting = sound.fitting;
    },
    further,
  )
  count_by-Ends start e FieldCount.match_first (some expected) actual sound further =
      expect_count-Ends (Consumes s input start) expected actual e (sound, further)

  -- Marking turns a span into an empty one at the same start.
  mark_input_null-Fits :
      (is_null : Bytes → Bool) (size : ℕ) (span : Span)
      → Fits s (length input) size span
      → Fits s (length input) size (mark_input_null is_null input span)
  unfolding mark_input_null
  mark_input_null-Fits is_null size span fits =
      let marks =
        not span.quoted && is_input span.source && is_null (slice input span.start span.end) in
      if_either (Fits s (length input) size) marks (null_span span.start) span
        (λ null.
          let reads : is_input span.source ≡ true = ground arith in
          record {
            ordered = omega arith;
            within =
                omega
                  (arith, fits.ordered, within_input size span.source span.end reads fits.within);
            narrow = omega arith;
          })
        (λ value. fits)

  -- Marking keeps the invariant and the place.
  abbrev pub Marked : Engine → Engine → Unit {0} → Type 0
  Marked e e' done = IsSound s input e' × (e'.location ≡ e.location)

  pub mark_null_spans-Ends :
      (e : Engine) (header : Bool)
      → IsSound s input e
      → Ends (Marked e) (mark_null_spans s input header e)
  unfolding mark_null_spans mark_input_nulls
  mark_null_spans-Ends e header sound =
      if_either (Ends (Marked e)) (no_nulls_set s.nulls || header) _ _ (λ plain. (sound, refl))
        (λ nulls. (
          record {
            located = sound.located;
            sized = sound.sized;
            counted = omega (
              arith,
              sound.counted,
              length-map (mark_input_null (raw_field_is_null s.nulls) input) e.spans,
            );
            fitting =
                All-map (Fits s (length input) (length e.scratch))
                  (mark_input_null (raw_field_is_null s.nulls) input) e.spans
                  (mark_input_null-Fits (raw_field_is_null s.nulls) (length e.scratch))
                  sound.fitting;
          },
          refl,
        ))

  pub counted-Ends :
      (start e : Engine)
      → IsSound s input e
      → (start.location < e.location) ⊎ (e.location ≡ length input)
      → Ends (Consumes s input start) (validate_field_count s input (length e.spans) e)
  unfolding validate_field_count
  counted-Ends start e sound further =
      count_by-Ends start e s.field_count e.expected_fields (length e.spans) sound further

  finish_fields-Ends :
      (start e : Engine) (header : Bool)
      → IsSound s input e
      → (start.location < e.location) ⊎ (e.location ≡ length input)
      → Ends (Consumes s input start) (finish_fields s input header e)
  unfolding finish_fields
  finish_fields-Ends start e header sound further =
      Ends->>= (Marked e) (Consumes s input start) (mark_null_spans s input header) _ e
        (mark_null_spans-Ends e header sound)
        (λ e' done marked. counted-Ends start e' marked.0 (rw (marked.1) further))

  after_field-Ends :
      (header : Bool) (start e e' : Engine) (ends : Bool)
      → Advances s input e e' ends
      → start.location ≤ e.location
      → (go : Parser (Unit {0}))
      → (e.location < e'.location → Ends (Consumes s input start) (go e'))
      → Ends (Consumes s input start) (after_field s input header go ends e')
  unfolding after_field
  after_field-Ends header start e e' true (sound, inl later) h go more =
      finish_fields-Ends start e' header sound (inl (omega arith))
  after_field-Ends header start e e' true (sound, inr ended) h go more =
      finish_fields-Ends start e' header sound (inr ended.0)
  after_field-Ends header start e e' false (sound, inl later) h go more = more later
  after_field-Ends header start e e' false (sound, inr ended) h go more = absurd (cc (ended.1))

  fields_loop-Ends :
      (fuel record_start : ℕ) (header : Bool) (start e : Engine)
      → IsScannable s input
      → IsSound s input e
      → record_start ≤ e.location
      → start.location ≤ e.location
      → length input < e.location + fuel
      → Ends (Consumes s input start) (fields_loop s input fuel record_start header e)
  unfolding fields_loop
  fields_loop-Ends zero record_start header start e scannable sound h k l =
      absurd (omega (arith, sound.located))
  fields_loop-Ends (suc fuel) record_start header start e scannable sound h k l =
      Ends->>= (Advances s input e) (Consumes s input start)
        (parse_field s input record_start header)
        (after_field s input header (fields_loop s input fuel record_start header)) e
        (parse_field-Ends record_start header e scannable sound h)
        (λ e' ends advanced.
          after_field-Ends header start e e' ends advanced k
            (fields_loop s input fuel record_start header)
            (λ later.
              fields_loop-Ends fuel record_start header start e' scannable advanced.0 (omega arith)
                (omega arith) (omega arith)))

  -- A record that is read ends, with an error or in a sound state further on.
  pub parse_record_fields-Ends :
      (header : Bool) (e : Engine)
      → IsScannable s input
      → IsSound s input e
      → Ends (Consumes s input e) (parse_record_fields s input e.location header e)
  unfolding parse_record_fields
  parse_record_fields-Ends header e scannable sound =
      fields_loop-Ends (length input + 1) e.location header e e scannable sound (omega arith)
        (omega arith) (omega arith)
