-- ===== src/Push/Build.antt =====
-- What `with_options` builds.
use coseva.Prelude.{
  Bool, List, Option, Bytes, length, String, false, [], none, some, ◌≡◌, refl, sym, ap, ◌∙◌, subst,
  Option-cases, inl, inr,
}
use coseva.Error.{Error, ErrorKind, detailed, Result, ok, err}
use coseva.Config.Options.{FieldCount}
use coseva.Config.Format.{FormatOptions, format_invalidity, validate_format}
use coseva.Emit.Record.Settled.{valid_format-NeverIfEscaping}
use coseva.Push.{PushEmitter, with_options, emit_nullable_record}
use coseva.Push.Laws.{Step, emit_nullable_record-Step}
use coseva.Push.Session.{IsReady}

built : FormatOptions → FieldCount → PushEmitter
built f c = record {
  buffer = [];
  dialect = f.dialect;
  quoting = f.quoting;
  write_bom = f.write_bom;
  nulls = f.nulls;
  field_count = c;
  expected_fields = none;
  started = false;
}

built_valid :
    (f : FormatOptions) (c : FieldCount)
    → format_invalidity f ≡ none
    → with_options f c ≡ ok (built f c)
unfolding with_options validate_format built
built_valid f c e = rw (e, with_options, validate_format)

built_invalid :
    (f : FormatOptions) (c : FieldCount) (reason : String)
    → format_invalidity f ≡ some reason
    → with_options f c ≡ err (detailed ErrorKind.configuration reason)
unfolding with_options validate_format
built_invalid f c reason e = rw (e, with_options, validate_format)

abbrev the_emitter : PushEmitter → Result Error PushEmitter
the_emitter v = ok v

emitter_or : PushEmitter → Result Error PushEmitter → PushEmitter
emitter_or v (ok v') = v'
emitter_or v (err e) = v

same_emitter : (v v' : PushEmitter) → the_emitter v ≡ the_emitter v' → v ≡ v'
unfolding emitter_or
same_emitter v v' e = ap (emitter_or v) e

not_built : (v : PushEmitter) (e : Error) → ¬ (err e ≡ the_emitter v)
not_built v e h = cc

-- The emitter of a document that has not begun, with the format's policies and the count's.
pub record IsFresh (f : FormatOptions) (c : FieldCount) (v : PushEmitter) : Type 0 where
  pub valid : format_invalidity f ≡ none
  pub dialect : v.dialect ≡ f.dialect
  pub quoting : v.quoting ≡ f.quoting
  pub write_bom : v.write_bom ≡ f.write_bom
  pub nulls : v.nulls ≡ f.nulls
  pub policy : v.field_count ≡ c
  pub nothing_written : v.buffer ≡ []
  pub not_started : v.started ≡ false
  pub nothing_expected : v.expected_fields ≡ none

built-IsFresh :
    (f : FormatOptions) (c : FieldCount) → format_invalidity f ≡ none → IsFresh f c (built f c)
unfolding built
built-IsFresh f c e = record {
  valid = e;
  dialect = refl;
  quoting = refl;
  write_bom = refl;
  nulls = refl;
  policy = refl;
  nothing_written = refl;
  not_started = refl;
  nothing_expected = refl;
}

built-IsReady :
    (f : FormatOptions) (c : FieldCount) → format_invalidity f ≡ none → IsReady none (built f c)
unfolding built
built-IsReady f c e = valid_format-NeverIfEscaping f e

-- If `with_options` builds an emitter, then its format is valid, the emitter has the format's dialect
-- and policies and the count's, it has written nothing, has not started and expects no count; and
-- emitting any record by it, for a type without a static format, appends the record or fails and
-- leaves it as it was, but does not panic.
pub with_options-Step :
    (parses_f64 : Bytes → Bool) (f : FormatOptions) (c : FieldCount) (v : PushEmitter)
    (fields : List (Option Bytes))
    → with_options f c ≡ ok v
    → IsFresh f c v × Step v (length fields) (emit_nullable_record parses_f64 none v fields)
with_options-Step parses_f64 f c v fields h = elim (Option-cases (format_invalidity f)) [
  | inl e ↦
      let same = same_emitter (built f c) v (sym (built_valid f c e) ∙ h) in
      (
        subst (IsFresh f c) same (built-IsFresh f c e),
        emit_nullable_record-Step parses_f64 none v fields
            (subst (IsReady none) same (built-IsReady f c e)),
      )
  | inr (reason, e) ↦ absurd (not_built v _ (sym (built_invalid f c reason e) ∙ h))
]
