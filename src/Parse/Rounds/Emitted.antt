-- ===== src/Parse/Rounds/Emitted.antt =====
-- crates/coseva/src/emit.rs and engine/borrowed_parser.rs together: what the emitter writes under
-- `Quoting::Always` is what the parser reads.
use coseva.Prelude.{
  get_elem?, some, ℕ, ◌+◌, ◌≤◌, Bool, false, List, [], ◌∷◌, ◌++◌, ◌≡◌, refl, sym, ap, ap₂, ◌∙◌,
  Bytes, length, arith, append_assoc, drop-append, length-append, drop, true, ltb, if◌then◌else◌,
}
use coseva.Config.Options.{quoting_enabled, Quoting, applies_to_scope}
use coseva.Emit.Writer.{Written, written, refused, panicked}
use coseva.Emit.Record.{emit_record_runtime}
use coseva.Emit.Record.Always.{record_text, emit_always-text}
use coseva.Parse.Spans.{max_offset}
use coseva.Parse.Engine.{Settings, Engine, parsed, ◌>>=◌}
use coseva.Parse.Fields.{
  fail_on_error, begin_spans, parse_or_fail, trim_spans, parse_positioned_record, parse_record,
  after_kernel, parse_record_fields, fields_of,
}
use coseva.Parse.Plain.{plain_record_candidate}
use coseva.Parse.Place.{At, At-head}
use coseva.Parse.Rounds.Shown.{ShowAll-fields}
use coseva.Parse.Rounds.Record.{FitsLimits, ReadsQuoted, parse_record_fields-reads}

-- What the parser has read: the fields, and the range of the record's bytes.
pub record Yields (s : Settings) (input : Bytes) (header : Bool) (e : Engine) (start end : ℕ)
    (fields : List Bytes) : Type 0 where
  pub state : Engine
  pub index : ℕ
  pub runs : parse_positioned_record s input header e ≡ parsed state (start, end, index)
  pub fields_read : fields_of input state ≡ fields
  pub terminated : state.terminated ≡ true
  pub located : state.location ≡ end

abbrev pub buffer {ℓ} : {A : Type ℓ} → Bytes → Written A → Bytes
buffer other (written out a) = out
buffer other (refused out e) = out
buffer other panicked = other

within_offset : (n : ℕ) → n ≤ max_offset → ltb max_offset n ≡ false
within_offset n h = ground arith

-- A record that begins with a quote is not one for the plain kernel.
parse_record-quoted :
    (s : Settings) (input : Bytes) (header : Bool) (e : Engine)
    → quoting_enabled s.syntax ≡ true
    → get_elem? input e.location ≡ some s.dialect.quote
    → parse_record s input e.location header e ≡ parse_record_fields s input e.location header e
unfolding parse_record plain_record_candidate after_kernel
parse_record-quoted s input header e quoting first =
    let declined : plain_record_candidate s s.dialect.quote ≡ false = ground (arith, quoting) in
    rw (first, ◌>>=◌) (rw (declined, ◌>>=◌, if◌then◌else◌) refl)

-- A record whose fields are read and that no trimming touches is read.
positioned-runs :
    (s : Settings) (input : Bytes) (header : Bool) (e e' : Engine)
    → length input ≤ max_offset
    → applies_to_scope s.trim header ≡ false
    → parse_record s input e.location header
        (record e { spans = []; scratch = []; input_len = length input })
      ≡ parsed e' tt
    → parse_positioned_record s input header e
      ≡ parsed
          (record e' { record_index = e'.record_index + 1 })
          (e.location, e'.location, e'.record_index)
unfolding parse_positioned_record begin_spans parse_or_fail trim_spans
positioned-runs s input header e e' short no_trim read =
    let begun : Engine = record e { spans = []; scratch = []; input_len = length input } in
    let begins : begin_spans s input e ≡ parsed begun tt =
      rw (within_offset (length input) short, if◌then◌else◌) refl in
    let reads : parse_or_fail s input e.location header begun ≡ parsed e' tt =
      ap fail_on_error read in
    let trims : trim_spans s input header e' ≡ parsed e' tt = rw (no_trim, if◌then◌else◌) refl in
    rw (begins, ◌>>=◌) (rw (reads, ◌>>=◌) (rw (trims, ◌>>=◌) refl))

module _ (s : Settings) (header : Bool) (out : Bytes) (first : Bytes) (fields : List Bytes)
    (after : Bytes) where
  abbrev pub text : Bytes
  text = record_text s.dialect first fields

  pub reads_text :
      (e : Engine)
      → ReadsQuoted s
      → length ((out ++ text) ++ after) ≤ max_offset
      → FitsLimits s first fields
      → applies_to_scope s.trim header ≡ false
      → e.location ≡ length out
      → Yields s
          ((out ++ text) ++ after)
          header
          e
          (length out)
          (length (out ++ text))
          (first ∷ fields)
  reads_text e reads short fits no_trim here =
      let input = (out ++ text) ++ after in
      let begun : Engine = record e { spans = []; scratch = []; input_len = length input } in
      let place : At input e.location (text ++ after) = record {
        behind =
            ap (λ n. drop n input) here
            ∙ ap (drop (length out)) (append_assoc out text after)
            ∙ drop-append out (text ++ after);
        inside = omega (arith, here, length-append (out ++ text) after, length-append out text);
      } in
      let read =
        parse_record_fields-reads s input reads header begun first fields after place
          (record { shown = tt; sized = refl; short = omega arith }) fits in
      let leads =
        parse_record-quoted s input header begun reads.quoting (At-head s.dialect.quote _ place) in
      let moved : read.0.location ≡ length (out ++ text) =
        omega (arith, read.2.location, here, length-append out text) in
      record {
        state = record read.0 { record_index = read.0.record_index + 1 };
        index = read.0.record_index;
        runs =
            positioned-runs s input header e read.0 short no_trim (leads ∙ read.1)
            ∙ ap₂
                (λ start end.
                  parsed (record read.0 { record_index = read.0.record_index + 1 })
                    (start, end, read.0.record_index))
                here moved;
        fields_read =
            ShowAll-fields input read.0.scratch read.0.spans (first ∷ fields) read.2.shown;
        terminated = read.2.terminated;
        located = moved;
      }

-- What `emit_record_runtime` writes under `Quoting::Always` is read back, whatever stood before it
-- and stands behind it: the fields are the same, the range is that of the bytes written, and the
-- state stands behind them. The conditions: a usable dialect whose escape is not read outside
-- quotes; a reader with quoting on, no recovery of whitespace behind a quote, no skipping of initial
-- spaces, no trimming in this scope and any number of fields; as many fields as `max_fields`, a
-- record as long as `max_record_bytes` and each field, as escaped, as long as `max_field_bytes` at
-- most; and an input that spans can address.
pub emit_record_runtime-parse_positioned_record :
    (parses_f64 : Bytes → Bool) (s : Settings) (header : Bool) (out out' after : Bytes)
    (first : Bytes) (fields : List Bytes) (count : ℕ) (e : Engine)
    → emit_record_runtime parses_f64 s.dialect Quoting.always (first ∷ fields) out
      ≡ written out' count
    → ReadsQuoted s
    → length (out' ++ after) ≤ max_offset
    → FitsLimits s first fields
    → applies_to_scope s.trim header ≡ false
    → e.location ≡ length out
    → Yields s (out' ++ after) header e (length out) (length out') (first ∷ fields)
emit_record_runtime-parse_positioned_record parses_f64 s header out out' after first fields count e
      emitted reads short fits no_trim here =
    let whole = emit_always-text s.dialect reads.quotes parses_f64 first fields out in
    let same : out' ≡ out ++ record_text s.dialect first fields =
      ap (buffer []) (sym emitted ∙ whole.1) in
    rw (same)
      (reads_text s header out first fields after e reads (rw (same) at short) fits no_trim here)
