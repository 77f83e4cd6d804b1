-- ===== src/Parse/Sound/Positioned.antt =====
-- Reading the record at the current place, from `begin_spans` to the record's range.
use coseva.Prelude.{
  ℕ, zero, suc, ◌+◌, ◌-◌, ◌≤◌, ◌<◌, Bool, true, ◌≡◌, refl, ◌⊎◌, Bytes, length, get_elem?, arith,
  ltb, ◌&&◌, if◌then◌else◌, if_either,
}
use coseva.Error.{ErrorKind}
use coseva.Config.Options.{applies, applies_to_scope}
use coseva.Parse.Spans.{
  Span, max_offset, is_ascii_whitespace, backing, trim_front, trim_back, trim_ascii,
  trim_ascii_where,
}
use coseva.Parse.Engine.{Settings, Engine, Parsed, parsed, rejected, panicked, exhausted}
use coseva.Parse.Fields.{
  parse_record, fail_on_error, begin_spans, trim_spans, parse_or_fail, parse_positioned_record,
}
use coseva.Parse.Outcome.{Ends, Ends->>=}
use coseva.Parse.Sound.{IsSound, IsScannable, Fits}
use coseva.Parse.Sound.Push.{reject-Ends}
use coseva.Parse.Sound.Record.{Consumes, length-map, All-map}
use coseva.Parse.Sound.Dispatch.{parse_record-Ends}

trim_front-bounds :
    (fuel : ℕ) (bytes : Bytes) (start end : ℕ)
    → start ≤ end
    → (start ≤ trim_front fuel bytes start end) × (trim_front fuel bytes start end ≤ end)
unfolding trim_front
trim_front-bounds zero bytes start end h = (omega arith, h)
trim_front-bounds (suc fuel) bytes start end h =
    if_either (λ t. (start ≤ t) × (t ≤ end))
      (ltb start end && is_ascii_whitespace (get_elem? bytes start)) _ _
      (λ more.
        let rest = trim_front-bounds fuel bytes (start + 1) end (ground arith) in
        (omega (arith, rest.0), rest.1))
      (λ done. (omega arith, h))

trim_back-bounds :
    (fuel : ℕ) (bytes : Bytes) (start end : ℕ)
    → start ≤ end
    → (start ≤ trim_back fuel bytes start end) × (trim_back fuel bytes start end ≤ end)
unfolding trim_back
trim_back-bounds zero bytes start end h = (h, omega arith)
trim_back-bounds (suc fuel) bytes start end h =
    if_either (λ t. (start ≤ t) × (t ≤ end))
      (ltb start end && is_ascii_whitespace (get_elem? bytes (end - 1))) _ _
      (λ more.
        let rest = trim_back-bounds fuel bytes start (end - 1) (ground arith) in
        (rest.0, omega (arith, rest.1)))
      (λ done. (h, omega arith))

module _ (s : Settings) (input : Bytes) where
  -- Trimming narrows a span.
  trim_ascii-Fits :
      (scratch : Bytes) (span : Span)
      → Fits s (length input) (length scratch) span
      → Fits s (length input) (length scratch) (trim_ascii input scratch span)
  unfolding trim_ascii
  trim_ascii-Fits scratch span fits =
      let bytes = backing span.source input scratch in
      let front =
        trim_front-bounds (span.end - span.start) bytes span.start span.end fits.ordered in
      let start = trim_front (span.end - span.start) bytes span.start span.end in
      let back = trim_back-bounds (span.end - start) bytes start span.end front.1 in
      if_either (Fits s (length input) (length scratch)) span.null span _ (λ null. fits)
        (λ value. record {
          ordered = back.0;
          within = omega (arith, back.1, fits.within);
          narrow = omega (arith, back.0, back.1, front.0, fits.narrow);
        })

  trim_spans-Ends :
      (start e : Engine) (header : Bool)
      → Consumes s input start e tt
      → Ends (Consumes s input start) (trim_spans s input header e)
  unfolding trim_spans trim_ascii_where
  trim_spans-Ends start e header (sound, further) =
      let trim = λ (quoted : Bool). applies s.trim header quoted in
      let narrowed =
        λ (span : Span). if trim span.quoted then trim_ascii input e.scratch span else span in
      if_either (Ends (Consumes s input start)) (applies_to_scope s.trim header) _ _
        (λ trims. (
          record {
            located = sound.located;
            sized = sound.sized;
            counted = omega (arith, sound.counted, length-map narrowed e.spans);
            fitting =
                All-map (Fits s (length input) (length e.scratch)) narrowed e.spans
                  (λ span fits.
                    if_either (Fits s (length input) (length e.scratch)) (trim span.quoted) _ _
                      (λ applied. trim_ascii-Fits e.scratch span fits) (λ exempt. fits))
                  sound.fitting;
          },
          further,
        ))
        (λ keeps. (sound, further))

  -- What reading a record promises, of the range and the index that it answers: the record lies
  -- between the two places, and the state is sound, past a byte of the input or at its end.
  pub record IsRead (e e' : Engine) (range : ℕ × ℕ × ℕ) : Type 0 where
    pub sound : IsSound s input e'
    pub starts : range.0 ≡ e.location
    pub stops : range.1 ≡ e'.location
    pub counts : e'.record_index ≡ range.2 + 1
    pub consumes : (range.0 < range.1) ⊎ (range.1 ≡ length input)

  fail_on_error-Ends :
      (Q : Engine → Unit {0} → Type 0) (w : Parsed (Unit {0})) → Ends Q w → Ends Q (fail_on_error w)
  fail_on_error-Ends Q (parsed e done) h = h
  fail_on_error-Ends Q (rejected e error) h = tt
  fail_on_error-Ends Q panicked h = h
  fail_on_error-Ends Q exhausted h = h

  -- an empty record in the same place
  abbrev Begun : Engine → Engine → Unit {0} → Type 0
  Begun e e' done = IsSound s input e' × (e'.location ≡ e.location)

  begin_spans-Ends :
      (e : Engine) → e.location ≤ length input → Ends (Begun e) (begin_spans s input e)
  unfolding begin_spans
  begin_spans-Ends e h =
      if_either (Ends (Begun e)) (ltb max_offset (length input)) _ _
        (λ long.
          reject-Ends s input (Begun e) ErrorKind.location_overflow e.location
            (record e { failed = true }))
        (λ fits. (record { located = h; sized = refl; counted = omega arith; fitting = tt }, refl))

  -- Reading the record at a place before the end of the input ends: with an error, or in a sound
  -- state, with the record's range, its index counted and a byte consumed or the end of the input
  -- met. It does not panic or run for ever, under a usable dialect and limits in which every slice
  -- is in range: a field may be as long as a record or as the input, and under the single-byte scan
  -- a record may be as long as the input.
  pub parse_positioned_record-Ends :
      (e : Engine) (header : Bool)
      → IsScannable s input
      → e.location < length input
      → Ends (IsRead e) (parse_positioned_record s input header e)
  unfolding parse_positioned_record parse_or_fail
  parse_positioned_record-Ends e header scannable h =
      Ends->>= (Begun e) (IsRead e) (begin_spans s input) _ e (begin_spans-Ends e (omega arith))
        (λ first done start.
          Ends->>= (Consumes s input first) (IsRead e) (parse_or_fail s input first.location header)
            _ first
            (fail_on_error-Ends (Consumes s input first)
              (parse_record s input first.location header first)
              (parse_record-Ends s input header first scannable start.0
                (omega (arith, start.1, h))))
            (λ second done' read.
              Ends->>= (Consumes s input first) (IsRead e) (trim_spans s input header) _ second
                (trim_spans-Ends first second header read)
                (λ third done'' trimmed. record {
                  sound = record {
                    located = trimmed.0.located;
                    sized = trimmed.0.sized;
                    counted = trimmed.0.counted;
                    fitting = trimmed.0.fitting;
                  };
                  starts = start.1;
                  stops = refl;
                  counts = refl;
                  consumes = trimmed.1;
                })))
