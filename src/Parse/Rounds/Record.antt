-- ===== src/Parse/Rounds/Record.antt =====
-- A record of quoted fields is read back.
use coseva.Prelude.{
  All, ℕ, zero, suc, ◌+◌, ◌≤◌, ◌<◌, Bool, true, false, List, [], ◌∷◌, ◌++◌, ◌≡◌, refl, sym, ap,
  subst, ◌∙◌, Bytes, length, arith, inl, inr, Bool-cases, length-append, append_assoc, append-nil,
  ◌||◌, if_either,
}
use coseva.Config.Options.{
  FieldCount, quoting_enabled, permits_trailing_whitespace, escapes_unquoted,
}
use coseva.Config.Dialect.{Dialect}
use coseva.Config.Dialect.Sound.{IsUsable}
use coseva.Emit.Field.Rounds.{each}
use coseva.Emit.Field.Quoted.{escaped_byte, quoted_field}
use coseva.Emit.Record.Always.{delimiter_bytes, ending_bytes, rest_text, record_text}
use coseva.Emit.Policy.{no_nulls_set}
use coseva.Parse.Spans.{mark_input_nulls}
use coseva.Parse.Engine.{
  Settings, Engine, Parsed, parsed, ◌>>=◌, byte_is, skip_delimiter_spaces, count_by,
  validate_field_count,
}
use coseva.Parse.Push.{mark_null_spans, raw_field_is_null}
use coseva.Parse.Quoted.{parse_quoted_field_runtime, finish_quoted_field_runtime}
use coseva.Parse.Fields.{parse_field, finish_fields, after_field, fields_loop, parse_record_fields}
use coseva.Parse.Place.{At, At-append, At-head, At-length}
use coseva.Parse.Rounds.{Style, style_of}
use coseva.Parse.Rounds.Quoted.{IsClosed, quoted_loop-IsClosed}
use coseva.Parse.Rounds.Behind.{
  finish-delimiter, finish-ending, byte_found, delimiter_alone, ending_alone,
}
use coseva.Parse.Rounds.Shown.{
  ShowAll, ShowAll-longer, ShowAll-append, ShowAll-length, quoted_all_kept, split_text, size_text,
}

-- The settings under which what the writer quotes is read back.
pub record ReadsQuoted (s : Settings) : Type 0 where
  pub usable : IsUsable s.dialect
  pub quotes : escapes_unquoted s.dialect.escape ≡ false
  pub quoting : quoting_enabled s.syntax ≡ true
  pub exact : permits_trailing_whitespace s.syntax ≡ false
  pub spaces : s.skip_initial_space ≡ false
  pub flexible : s.field_count ≡ FieldCount.flexible

-- The limits that a field keeps, and those that a record keeps as it is written.
abbrev pub FitsField : Settings → Bytes → Type 0
FitsField s field =
    length (each (escaped_byte s.dialect s.dialect.escape) field) ≤ s.limits.max_field_bytes

pub record FitsLimits (s : Settings) (first : Bytes) (fields : List Bytes) : Type 0 where
  pub count : length (first ∷ fields) ≤ s.limits.max_fields
  pub size : length (record_text s.dialect first fields) ≤ s.limits.max_record_bytes
  pub each_field : All (FitsField s) (first ∷ fields)

-- The state between two fields: what has been read, and where.
pub record HasRead (s : Settings) (input : Bytes) (e : Engine) (fields : List Bytes) : Type 0 where
  pub shown : ShowAll input e.scratch e.spans fields
  pub sized : e.input_len ≡ length input
  pub short : length e.scratch ≤ e.location

module _ (s : Settings) (input : Bytes) (reads : ReadsQuoted s) where
  style : Style s input s.dialect.escape
  style = style_of s input s.dialect.escape reads.usable.escape_clear reads.quotes

  no_spaces :
      (record_start : ℕ) (e : Engine) → skip_delimiter_spaces s input record_start e ≡ parsed e tt
  unfolding skip_delimiter_spaces
  no_spaces record_start e = rw (reads.spaces, skip_delimiter_spaces) refl

  -- Escaping does not shorten a field.
  longer :
      (field : Bytes) → length field ≤ length (each (escaped_byte s.dialect s.dialect.escape) field)
  longer [] = omega arith
  longer (x ∷ field) =
      let esc = escaped_byte s.dialect s.dialect.escape in
      let both = length-append (esc x) (each esc field) in
      elim (Bool-cases (style.special x)) [
        | inl special ↦ omega (arith, longer field, both, ap length (style.doubles x special))
        | inr plain ↦ omega (arith, longer field, both, ap length (style.keeps x plain))
      ]

  -- A field between quotes is read up to the byte behind its last quote.
  field-IsClosed :
      (record_start : ℕ) (header : Bool) (e : Engine) (field behind : Bytes)
      → At input e.location (quoted_field s.dialect field ++ behind)
      → e.input_len ≡ length input
      → length e.scratch ≤ e.location
      → length e.spans < s.limits.max_fields
      → FitsField s field
      → e.location + length (quoted_field s.dialect field)
        ≤ record_start + s.limits.max_record_bytes
      → byte_is input (e.location + length (quoted_field s.dialect field)) s.dialect.quote ≡ false
      → IsClosed s input record_start e e.scratch
          (e.location + length (quoted_field s.dialect field))
          field
          (parse_field s input record_start header e)
  unfolding parse_field parse_quoted_field_runtime
  field-IsClosed record_start header e field behind p sized short room_left narrow room alone =
      let q = s.dialect.quote in
      let text = each (escaped_byte s.dialect s.dialect.escape) field in
      let p' : At input e.location (q ∷ (text ++ (q ∷ behind))) =
        subst (λ t. At input e.location (q ∷ t)) (append_assoc text (q ∷ []) behind) p in
      let content = At-append (q ∷ []) (text ++ (q ∷ behind)) p' in
      let here = byte_found input e.location q (At-head q (text ++ (q ∷ behind)) p') in
      let size = length-append text (q ∷ []) in
      let whole = length-append text (q ∷ behind) in
      let base = length-append e.scratch [] in
      let ends : e.location + 1 + length text + 1
          ≡ e.location + length (quoted_field s.dialect field) =
        omega (arith, size) in
      rw (no_spaces record_start e, ◌>>=◌)
        (rw (here) (
          rw (reads.quoting) (
            subst
              (λ end.
                IsClosed s input record_start e e.scratch end field
                  (parse_quoted_field_runtime s input record_start e))
              ends
              (quoted_loop-IsClosed s input record_start (e.location + 1)
                (e.location + 1 + length text)
                (record { fields = omega (arith, narrow); records = omega (arith, room, ends) })
                style (length input + 1) (e.location + 1) false e e.scratch [] field behind
                (omega (arith, longer field, whole, At-length (text ++ (q ∷ behind)) content))
                content (sym (append-nil e.scratch)) (λ fresh. (refl, refl)) (omega arith)
                (omega (arith, base, short)) sized room_left
                (ap (λ n. byte_is input n q) ends ∙ alone) refl))))

  finish_fields-parsed :
      (header : Bool) (e : Engine) (fields : List Bytes)
      → ShowAll input e.scratch e.spans fields
      → finish_fields s input header e ≡ parsed e tt
  unfolding finish_fields mark_null_spans mark_input_nulls validate_field_count count_by
  finish_fields-parsed header e fields shown =
      let kept = quoted_all_kept (raw_field_is_null s.nulls) input e.scratch e.spans fields shown in
      let marks : mark_null_spans s input header e ≡ parsed e tt =
        if_either (λ w. w ≡ parsed e tt) (no_nulls_set s.nulls || header) _ _ (λ plain. refl)
          (λ nulls. ap (λ t. parsed (record e { spans = t }) tt) kept) in
      rw (marks, ◌>>=◌)
        (ap (λ policy. count_by s input policy e.expected_fields (length e.spans) e) reads.flexible)

  -- The state behind a field's last quote.
  record IsFieldRead (record_start : ℕ) (fields : List Bytes) (end : ℕ) (w : Parsed Bool)
      : Type 0 where
    state : Engine
    runs : w ≡ finish_quoted_field_runtime s input record_start end state
    shown : ShowAll input state.scratch state.spans fields
    sized : state.input_len ≡ length input
    short : length state.scratch ≤ end

  field-IsFieldRead :
      (record_start : ℕ) (header : Bool) (e : Engine) (before : List Bytes) (field behind : Bytes)
      → At input e.location (quoted_field s.dialect field ++ behind)
      → HasRead s input e before
      → length before < s.limits.max_fields
      → FitsField s field
      → e.location + length (quoted_field s.dialect field)
        ≤ record_start + s.limits.max_record_bytes
      → byte_is input (e.location + length (quoted_field s.dialect field)) s.dialect.quote ≡ false
      → IsFieldRead record_start
          (before ++ (field ∷ []))
          (e.location + length (quoted_field s.dialect field))
          (parse_field s input record_start header e)
  field-IsFieldRead record_start header e before field behind p read few narrow room alone =
      let counted = ShowAll-length input e.scratch e.spans before read.shown in
      let closed =
        field-IsClosed record_start header e field behind p read.sized read.short
          (omega (arith, counted)) narrow room alone in
      record {
        state = record e {
          spans = e.spans ++ (closed.span ∷ []);
          scratch = e.scratch ++ closed.tail;
        };
        runs = closed.runs;
        shown =
            ShowAll-append input (e.scratch ++ closed.tail) e.spans before closed.span field
              (ShowAll-longer input e.scratch closed.tail e.spans before read.shown) closed.shows
              closed.quoted;
        sized = read.sized;
        short = closed.fits;
      }

  -- What reading a record leaves.
  pub record IsReadBack (e e' : Engine) (fields : List Bytes) (size : ℕ) : Type 0 where
    pub shown : ShowAll input e'.scratch e'.spans fields
    pub location : e'.location ≡ e.location + size
    pub terminated : e'.terminated ≡ true

  fields_loop-reads :
      (fuel record_start : ℕ) (header : Bool) (e : Engine) (before : List Bytes) (first : Bytes)
      (fields : List Bytes) (after : Bytes)
      → length fields < fuel
      → At input e.location (record_text s.dialect first fields ++ after)
      → HasRead s input e before
      → record_start ≤ e.location
      → length before + length (first ∷ fields) ≤ s.limits.max_fields
      → All (FitsField s) (first ∷ fields)
      → e.location + length (record_text s.dialect first fields)
        ≤ record_start + s.limits.max_record_bytes
      → (e' : Engine) × (fields_loop s input fuel record_start header e ≡ parsed e' tt)
        × IsReadBack e e' (before ++ (first ∷ fields)) (length (record_text s.dialect first fields))
  unfolding fields_loop after_field
  fields_loop-reads zero record_start header e before first fields after h p read start few narrow
        room =
      absurd (omega arith)
  fields_loop-reads (suc fuel) record_start header e before first [] after h p read start few narrow
        room =
      let d = s.dialect in
      let text = quoted_field d first in
      let end = e.location + length text in
      let p' = subst (At input e.location) (append_assoc text (ending_bytes d) after) p in
      let behind = At-append text (ending_bytes d ++ after) p' in
      let alone = ending_alone s input reads.usable reads.exact end after behind in
      let field =
        field-IsFieldRead record_start header e before first (ending_bytes d ++ after) p' read
          (omega arith) narrow.0 (omega (arith, room, length-append text (ending_bytes d))) alone in
      let ended =
        finish-ending s input reads.usable reads.exact record_start end after field.state
          (omega arith) behind (omega (arith, room, length-append text (ending_bytes d))) in
      let last : Engine = record field.state {
        location = end + length (ending_bytes d);
        terminated = true;
      } in
      (
        last,
        rw (field.runs ∙ ended, ◌>>=◌)
            (finish_fields-parsed header last (before ++ (first ∷ [])) field.shown),
        record {
          shown = field.shown;
          location = omega (arith, length-append text (ending_bytes d));
          terminated = refl;
        },
      )
  fields_loop-reads (suc fuel) record_start header e before first (second ∷ fields) after h p read
        start few narrow room =
      let d = s.dialect in
      let text = quoted_field d first in
      let end = e.location + length text in
      let more = record_text d second fields in
      let p' = subst (At input e.location) (split_text d first second fields after) p in
      let behind = At-append text (delimiter_bytes d ++ (more ++ after)) p' in
      let alone = delimiter_alone s input reads.usable reads.exact end (more ++ after) behind in
      let field =
        field-IsFieldRead record_start header e before first (delimiter_bytes d ++ (more ++ after))
          p' read (omega arith) narrow.0 (omega (arith, room, size_text d first second fields))
          alone in
      let parted =
        finish-delimiter s input reads.usable reads.exact record_start end (more ++ after)
          field.state behind in
      let next : Engine = record field.state { location = end + length (delimiter_bytes d) } in
      let longer_list = length-append before (first ∷ []) in
      let rest =
        fields_loop-reads fuel record_start header next (before ++ (first ∷ [])) second fields after
          (omega arith) (At-append (delimiter_bytes d) (more ++ after) behind)
          (record { shown = field.shown; sized = field.sized; short = omega (arith, field.short) })
          (omega arith) (omega (arith, longer_list)) narrow.1
          (omega (arith, room, size_text d first second fields)) in
      (
        rest.0,
        rw (field.runs ∙ parted, ◌>>=◌) rest.1,
        record {
          shown =
              subst (ShowAll input rest.0.scratch rest.0.spans)
                (append_assoc before (first ∷ []) (second ∷ fields)) rest.2.shown;
          location = omega (arith, rest.2.location, size_text d first second fields);
          terminated = rest.2.terminated;
        },
      )

  rest_size : (d : Dialect) (fields : List Bytes) → length fields ≤ length (rest_text d fields)
  rest_size d [] = omega arith
  rest_size d (field ∷ fields) = omega (
    arith,
    rest_size d fields,
    length-append (delimiter_bytes d) (quoted_field d field ++ rest_text d fields),
    length-append (quoted_field d field) (rest_text d fields),
  )

  record_size :
      (d : Dialect) (first : Bytes) (fields : List Bytes)
      → length fields ≤ length (record_text d first fields)
  record_size d first fields = omega (
    arith,
    rest_size d fields,
    length-append (quoted_field d first) (rest_text d fields ++ ending_bytes d),
    length-append (rest_text d fields) (ending_bytes d),
  )

  pub parse_record_fields-reads :
      (header : Bool) (e : Engine) (first : Bytes) (fields : List Bytes) (after : Bytes)
      → At input e.location (record_text s.dialect first fields ++ after)
      → HasRead s input e []
      → FitsLimits s first fields
      → (e' : Engine) × (parse_record_fields s input e.location header e ≡ parsed e' tt)
        × IsReadBack e e' (first ∷ fields) (length (record_text s.dialect first fields))
  unfolding parse_record_fields
  parse_record_fields-reads header e first fields after p read fits =
      let text = record_text s.dialect first fields in
      fields_loop-reads (length input + 1) e.location header e [] first fields after
        (omega (
          arith,
          record_size s.dialect first fields,
          At-length (text ++ after) p,
          length-append text after,
        ))
        p read (omega arith) (omega (arith, fits.count)) fits.each_field (omega (arith, fits.size))
