-- ===== src/Parse/Rounds/Shown.antt =====
-- The spans of quoted fields show the fields, and the text of a record is that of its fields.
use coseva.Prelude.{
  ◌+◌, Bool, true, false, List, [], ◌∷◌, ◌++◌, map, ◌≡◌, refl, sym, ap, ap₂, ◌∙◌, Bytes, length,
  arith, length-append, append_assoc, append-nil, ◌&&◌, if◌then◌else◌, not,
}
use coseva.Config.Dialect.{Dialect}
use coseva.Emit.Field.Quoted.{quoted_field}
use coseva.Emit.Record.Always.{delimiter_bytes, ending_bytes, rest_text, record_text}
use coseva.Parse.Spans.{Span, resolve_span, slice, is_input, mark_input_null}
use coseva.Parse.Rounds.Quoted.{Shows}

-- The spans show the fields, one by one, and all of them were quoted.
abbrev pub ShowAll : Bytes → Bytes → List Span → List Bytes → Type 0
ShowAll input scratch [] [] = Unit {0}
ShowAll input scratch [] (field ∷ fields) = ⊥
ShowAll input scratch (span ∷ spans) [] = ⊥
ShowAll input scratch (span ∷ spans) (field ∷ fields) =
    Shows input scratch field span × (span.quoted ≡ true) × ShowAll input scratch spans fields

-- A longer scratch shows what a shorter one showed.
pub ShowAll-longer :
    (input scratch more : Bytes) (spans : List Span) (fields : List Bytes)
    → ShowAll input scratch spans fields
    → ShowAll input (scratch ++ more) spans fields
ShowAll-longer input scratch more [] [] h = tt
ShowAll-longer input scratch more [] (field ∷ fields) h = h
ShowAll-longer input scratch more (span ∷ spans) [] h = h
ShowAll-longer input scratch more (span ∷ spans) (field ∷ fields) h = (
  λ rest. ap (λ t. resolve_span input t span) (append_assoc scratch more rest) ∙ h.0 (more ++ rest),
  h.1,
  ShowAll-longer input scratch more spans fields h.2,
)

pub ShowAll-append :
    (input scratch : Bytes) (spans : List Span) (fields : List Bytes) (span : Span) (field : Bytes)
    → ShowAll input scratch spans fields
    → Shows input scratch field span
    → span.quoted ≡ true
    → ShowAll input scratch (spans ++ (span ∷ [])) (fields ++ (field ∷ []))
ShowAll-append input scratch [] [] span field h k l = (k, l, tt)
ShowAll-append input scratch [] (f ∷ fields) span field h k l = absurd h
ShowAll-append input scratch (x ∷ spans) [] span field h k l = absurd h
ShowAll-append input scratch (x ∷ spans) (f ∷ fields) span field h k l =
    (h.0, h.1, ShowAll-append input scratch spans fields span field h.2 k l)

pub ShowAll-length :
    (input scratch : Bytes) (spans : List Span) (fields : List Bytes)
    → ShowAll input scratch spans fields
    → length spans ≡ length fields
ShowAll-length input scratch [] [] h = refl
ShowAll-length input scratch [] (f ∷ fields) h = absurd h
ShowAll-length input scratch (x ∷ spans) [] h = absurd h
ShowAll-length input scratch (x ∷ spans) (f ∷ fields) h =
    omega (arith, ShowAll-length input scratch spans fields h.2)

-- Then the record's fields are those.
pub ShowAll-fields :
    (input scratch : Bytes) (spans : List Span) (fields : List Bytes)
    → ShowAll input scratch spans fields
    → map (resolve_span input scratch) spans ≡ fields
ShowAll-fields input scratch [] [] h = refl
ShowAll-fields input scratch [] (f ∷ fields) h = absurd h
ShowAll-fields input scratch (x ∷ spans) [] h = absurd h
ShowAll-fields input scratch (x ∷ spans) (f ∷ fields) h =
    ap₂ (λ u v. u ∷ v) (ap (λ t. resolve_span input t x) (sym (append-nil scratch)) ∙ h.0 [])
      (ShowAll-fields input scratch spans fields h.2)

-- A quoted field is no NULL.
quoted_kept :
    (is_null : Bytes → Bool) (input : Bytes) (span : Span)
    → span.quoted ≡ true
    → mark_input_null is_null input span ≡ span
unfolding mark_input_null
quoted_kept is_null input span h =
    let off : (not span.quoted && is_input span.source && is_null (slice input span.start span.end))
        ≡ false =
      ground arith in
    rw (off, if◌then◌else◌) refl

pub quoted_all_kept :
    (is_null : Bytes → Bool) (input scratch : Bytes) (spans : List Span) (fields : List Bytes)
    → ShowAll input scratch spans fields
    → map (mark_input_null is_null input) spans ≡ spans
quoted_all_kept is_null input scratch [] fields h = refl
quoted_all_kept is_null input scratch (x ∷ spans) [] h = absurd h
quoted_all_kept is_null input scratch (x ∷ spans) (f ∷ fields) h =
    ap₂ (λ u v. u ∷ v) (quoted_kept is_null input x h.1)
      (quoted_all_kept is_null input scratch spans fields h.2)

-- A record's text is its first field's, a separator, and the text of the fields behind it.
pub split_text :
    (d : Dialect) (first second : Bytes) (fields : List Bytes) (after : Bytes)
    → record_text d first (second ∷ fields) ++ after
      ≡ quoted_field d first ++ (delimiter_bytes d ++ (record_text d second fields ++ after))
split_text d first second fields after =
    let field = quoted_field d first in
    let next = quoted_field d second in
    let rest = rest_text d fields in
    let sep = delimiter_bytes d in
    append_assoc field ((sep ++ (next ++ rest)) ++ ending_bytes d) after
    ∙ ap (λ t. field ++ (t ++ after))
        (append_assoc sep (next ++ rest) (ending_bytes d)
          ∙ ap (λ t. sep ++ t) (append_assoc next rest (ending_bytes d)))
    ∙ ap (λ t. field ++ t) (append_assoc sep (record_text d second fields) after)

pub size_text :
    (d : Dialect) (first second : Bytes) (fields : List Bytes)
    → length (record_text d first (second ∷ fields))
      ≡ length (quoted_field d first)
        + length (delimiter_bytes d)
        + length (record_text d second fields)
size_text d first second fields =
    ap length (
      sym (append-nil (record_text d first (second ∷ fields)))
      ∙ split_text d first second fields [])
    ∙ omega (
      arith,
      length-append (quoted_field d first)
          (delimiter_bytes d ++ (record_text d second fields ++ [])),
      length-append (delimiter_bytes d) (record_text d second fields ++ []),
      length-append (record_text d second fields) [],
    )
