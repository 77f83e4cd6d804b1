-- ===== src/Parse/Rounds/Document.antt =====
-- crates/coseva/src/emit.rs and engine/borrowed_parser.rs on a whole document: records written one
-- behind another are read back one after another.
use coseva.Prelude.{
  ℕ, ◌≤◌, Bool, false, List, [], ◌∷◌, ◌++◌, ◌≡◌, sym, ap, subst, ◌∙◌, Bytes, length, All,
  append-nil, append_assoc,
}
use coseva.Config.Options.{Quoting, applies_to_scope}
use coseva.Config.Dialect.{Dialect}
use coseva.Emit.Writer.{written}
use coseva.Emit.Record.{emit_record_runtime}
use coseva.Emit.Record.Always.{record_text, emit_always-text}
use coseva.Parse.Spans.{max_offset}
use coseva.Parse.Engine.{Settings, Engine}
use coseva.Parse.Rounds.Record.{ReadsQuoted, FitsLimits}
use coseva.Parse.Rounds.Emitted.{Yields, buffer, reads_text}

-- a record of one field or more
abbrev pub Fields : Type 0
Fields = Bytes × List Bytes

-- The records written from one buffer to another.
abbrev pub EmitsAll : (Bytes → Bool) → Dialect → List Fields → Bytes → Bytes → Type 0
EmitsAll parses_f64 d [] out out' = out' ≡ out
EmitsAll parses_f64 d (fields ∷ more) out out' =
    (next : Bytes) × (count : ℕ) × (emit_record_runtime parses_f64 d Quoting.always
        (fields.0 ∷ fields.1) out
      ≡ written next count)
    × EmitsAll parses_f64 d more next out'

-- The records read one after another, each from where the last one ended.
abbrev pub YieldsAll : Settings → Bytes → Bool → Engine → ℕ → ℕ → List Fields → Type 0
YieldsAll s input header e start end [] = start ≡ end
YieldsAll s input header e start end (fields ∷ more) =
    (next : ℕ) × (read : Yields s input header e start next (fields.0 ∷ fields.1)) × YieldsAll s
      input header read.state next end more

document_text : Dialect → List Fields → Bytes
document_text d [] = []
document_text d (fields ∷ more) = record_text d fields.0 fields.1 ++ document_text d more

-- What the records put behind the buffer.
emits-document_text :
    (s : Settings) (parses_f64 : Bytes → Bool) (records : List Fields) (out out' : Bytes)
    → ReadsQuoted s
    → EmitsAll parses_f64 s.dialect records out out'
    → out' ≡ out ++ document_text s.dialect records
unfolding document_text
emits-document_text s parses_f64 [] out out' reads emits = emits ∙ sym (append-nil out)
emits-document_text s parses_f64 (fields ∷ more) out out' reads (next, count, emitted, rest) =
    let whole = emit_always-text s.dialect reads.quotes parses_f64 fields.0 fields.1 out in
    let record_part = record_text s.dialect fields.0 fields.1 in
    let same : next ≡ out ++ record_part = ap (buffer []) (sym emitted ∙ whole.1) in
    emits-document_text s parses_f64 more next out' reads rest
    ∙ ap (λ front. front ++ document_text s.dialect more) same
    ∙ append_assoc out record_part (document_text s.dialect more)

module _ (s : Settings) (header : Bool) (input : Bytes) where
  reads_document :
      (records : List Fields) (out after : Bytes) (e : Engine)
      → input ≡ (out ++ document_text s.dialect records) ++ after
      → ReadsQuoted s
      → length input ≤ max_offset
      → All (λ fields. FitsLimits s fields.0 fields.1) records
      → applies_to_scope s.trim header ≡ false
      → e.location ≡ length out
      → YieldsAll s input header e
          (length out)
          (length (out ++ document_text s.dialect records))
          records
  unfolding document_text
  reads_document [] out after e same reads short few no_trim here = ap length (sym (append-nil out))
  reads_document (fields ∷ more) out after e same reads short few no_trim here =
      let part = record_text s.dialect fields.0 fields.1 in
      let rest = document_text s.dialect more in
      let front = out ++ part in
      let split : out ++ (part ++ rest) ≡ front ++ rest = sym (append_assoc out part rest) in
      let here_first : input ≡ front ++ (rest ++ after) =
        same ∙ ap (λ t. t ++ after) split ∙ append_assoc front rest after in
      let read : Yields s input header e (length out) (length front) (fields.0 ∷ fields.1) =
        subst (λ t. Yields s t header e (length out) (length front) (fields.0 ∷ fields.1))
          (sym here_first)
          (reads_text s header out fields.0 fields.1 (rest ++ after) e reads
            (subst (λ t. length t ≤ max_offset) here_first short) few.0 no_trim here) in
      (
        length front,
        read,
        subst (λ t. YieldsAll s input header read.state (length front) (length t) more) (sym split)
            (reads_document more front after read.state (same ∙ ap (λ t. t ++ after) split) reads
              short few.1 no_trim read.located),
      )

-- A document that is emitted record by record under `Quoting::Always` is read back record by record,
-- from where its first record stands to where its last one ends, whatever stands around it. The
-- conditions: a usable dialect whose escape is not read outside quotes; a reader with quoting on, no
-- recovery of whitespace behind a quote, no skipping of initial spaces, no trimming in this scope
-- and any number of fields; in each record as many fields as `max_fields`, a length of
-- `max_record_bytes` and fields, as escaped, of `max_field_bytes` at most; and an input that spans
-- can address.
pub emit_record_runtime-YieldsAll :
    (parses_f64 : Bytes → Bool) (s : Settings) (header : Bool) (records : List Fields)
    (out out' after : Bytes) (e : Engine)
    → EmitsAll parses_f64 s.dialect records out out'
    → ReadsQuoted s
    → length (out' ++ after) ≤ max_offset
    → All (λ fields. FitsLimits s fields.0 fields.1) records
    → applies_to_scope s.trim header ≡ false
    → e.location ≡ length out
    → YieldsAll s (out' ++ after) header e (length out) (length out') records
emit_record_runtime-YieldsAll parses_f64 s header records out out' after e emits reads short few
      no_trim here =
    let whole = emits-document_text s parses_f64 records out out' reads emits in
    subst (λ t. YieldsAll s (out' ++ after) header e (length out) (length t) records) (sym whole)
      (reads_document s header (out' ++ after) records out after e (ap (λ t. t ++ after) whole)
        reads short few no_trim here)
