-- ===== src/Push/Laws.antt =====
-- What one call of the emitter does to it.
use coseva.Prelude.{
  ℕ, zero, suc, Bool, List, [], ◌∷◌, ◌++◌, Option, none, some, ◌≡◌, refl, sym, ap, ◌∙◌, subst,
  Bytes, All, length, take, take-append, ap₂, arith,
}
use coseva.Error.{Error, Result, ok, err}
use coseva.Config.Options.{FieldCount}
use coseva.Config.Format.{FormatOptions}
use coseva.Emit.Writer.{
  Writer, Written, written, refused, panicked, truncate_on_error, truncate-written,
  truncate-refused,
}
use coseva.Emit.Field.Orderly.{NeverIfEscaping}
use coseva.Emit.Record.{validate_field_count}
use coseva.Emit.Record.Settled.{
  Settled, committed, rolled_back, emit_nullable_record_runtime-Settled,
}
use coseva.Emit.Visitor.{fmt_dialect, fmt_quoting, fmt_nulls, visit_record}
use coseva.Emit.Visitor.Steps.{FieldIsBytes}
use coseva.Emit.Visitor.Simulation.{visit-emit_nullable_record}
use coseva.Push.{
  PushEmitter, Emitted, emitted, failed, commit, rollback, count_checked, finish_record,
  emit_nullable_record, encode,
}

take_idem {ℓ} : {A : Type ℓ} (n : ℕ) (xs : List A) → take n (take n xs) ≡ take n xs
take_idem zero xs = refl
take_idem (suc n) [] = refl
take_idem (suc n) (x ∷ xs) = ap (λ ys. x ∷ ys) (take_idem n xs)

-- A writer that takes a refused record back itself changes nothing for `finish_record`.
finish-truncated :
    (v : PushEmitter) (start : ℕ) (m : Writer ℕ) (out : Bytes) (w : Written ℕ)
    → m out ≡ w
    → finish_record v start (truncate_on_error start m out) ≡ finish_record v start (m out)
unfolding finish_record rollback
finish-truncated v start m out (written out' n) e =
    ap (finish_record v start) (truncate-written start m e)
finish-truncated v start m out (refused out' x) e =
    ap (finish_record v start) (truncate-refused start m e)
    ∙ ap (λ o. failed (record v { buffer = o }) x) (take_idem start out')
    ∙ sym (ap (finish_record v start) e)
finish-truncated v start m out panicked e = ap (finish_record v start) (truncated_panic ∙ sym e)
  where
    truncated_panic : truncate_on_error start m out ≡ panicked
    truncated_panic = rw (e, truncate_on_error)

take_all {ℓ} : {A : Type ℓ} (xs : List A) → take (length xs) xs ≡ xs
take_all [] = refl
take_all (x ∷ xs) = ap (λ ys. x ∷ ys) (take_all xs)

-- the policies by which a record of `n` fields is right, with the count expected of the next one
abbrev pub Accepts : FieldCount → Option ℕ → ℕ → Option ℕ → Type 0
Accepts FieldCount.flexible expected n next = next ≡ expected
Accepts (FieldCount.exact required) expected n next = (n ≡ required) × (next ≡ expected)
Accepts FieldCount.match_first none n next = next ≡ some n
Accepts FieldCount.match_first (some first) n next = (n ≡ first) × (next ≡ some first)

accepted :
    (policy : FieldCount) (expected : Option ℕ) (n : ℕ) (next : Option ℕ) (u : Unit {0})
    → validate_field_count policy expected n ≡ (next, ok u)
    → Accepts policy expected n next
unfolding validate_field_count
accepted FieldCount.flexible expected n next u e = sym (ap (λ c. c.0) e)
accepted (FieldCount.exact required) expected n next u e = ground arith
accepted FieldCount.match_first none n next u e = sym (ap (λ c. c.0) e)
accepted FieldCount.match_first (some first) n next u e = ground arith

rejected :
    (policy : FieldCount) (expected : Option ℕ) (n : ℕ) (next : Option ℕ) (x : Error)
    → validate_field_count policy expected n ≡ (next, err x)
    → next ≡ expected
unfolding validate_field_count
rejected FieldCount.flexible expected n next x e = sym (ap (λ c. c.0) e)
rejected (FieldCount.exact required) expected n next x e = sym (ap (λ c. c.0) e)
rejected FieldCount.match_first none n next x e = absurd (cc)
rejected FieldCount.match_first (some first) n next x e = sym (ap (λ c. c.0) e)

-- the emitter behind a record that was kept
unfoldable pub appended_to : PushEmitter → Bytes → Option ℕ → PushEmitter
unfolding commit
appended_to v added expected =
    commit (record v { buffer = v.buffer ++ added; expected_fields = expected }) (length v.buffer)

-- What one call does, for a record of `n` fields.
pub data Step (v : PushEmitter) (n : ℕ) (w : Emitted) : Type 0 where
  appended :
      (added : Bytes) (expected : Option ℕ)
      → Accepts v.field_count v.expected_fields n expected
      → w ≡ emitted (appended_to v added expected)
      → Step v n w
  unchanged : (e : Error) → w ≡ failed v e → Step v n w

verdict :
    (v : PushEmitter) (n : ℕ) (added : Bytes) (checked : Option ℕ × Result Error (Unit {0}))
    → validate_field_count v.field_count v.expected_fields n ≡ checked
    → Step v n (count_checked (record v { buffer = v.buffer ++ added }) (length v.buffer) checked)
unfolding count_checked rollback appended_to
verdict v n added (expected, ok u) e =
    appended added expected (accepted v.field_count v.expected_fields n expected u e) refl
verdict v n added (expected, err x) e = unchanged x (
    ap₂ (λ o c. failed (record v { buffer = o; expected_fields = c }) x)
      (take-append v.buffer added) (rejected v.field_count v.expected_fields n expected x e))

finish-Step :
    (v : PushEmitter) (n : ℕ) (w : Written ℕ)
    → Settled (λ field_count. field_count ≡ n) v.buffer w
    → Step v n (finish_record v (length v.buffer) w)
unfolding finish_record rollback
finish-Step v n w (committed added m e p) =
    subst (λ w. Step v n (finish_record v (length v.buffer) w)) (sym e)
      (subst (λ m. Step v n (finish_record v (length v.buffer) (written (v.buffer ++ added) m)))
        (sym p) (verdict v n added (validate_field_count v.field_count v.expected_fields n) refl))
finish-Step v n w (rolled_back x e) = unchanged x (
    ap (finish_record v (length v.buffer)) e
    ∙ ap (λ o. failed (record v { buffer = o }) x) (take_all v.buffer))

module _ (parses_f64 : Bytes → Bool) where
  -- Encoding a value does to the emitter what emitting the fields that it visits does, for fields
  -- of bytes.
  pub encode-emit_nullable_record :
      (options : Option FormatOptions) (v : PushEmitter) (fields : List (Option Bytes))
      → All FieldIsBytes fields
      → encode parses_f64 options v fields ≡ emit_nullable_record parses_f64 options v fields
  unfolding encode emit_nullable_record
  encode-emit_nullable_record options v fields h =
      sym (
        finish-truncated v (length v.buffer)
          (visit_record parses_f64 options v.dialect v.quoting v.nulls fields) v.buffer _ refl)
      ∙ ap (finish_record v (length v.buffer)) (
          visit-emit_nullable_record parses_f64 options v.dialect v.quoting v.nulls fields v.buffer
            h)

  -- A call either appends a record that the field-count policy accepts, or fails and leaves the
  -- emitter as it was; it does not panic.
  pub emit_nullable_record-Step :
      (options : Option FormatOptions) (v : PushEmitter) (fields : List (Option Bytes))
      → NeverIfEscaping (fmt_dialect options v.dialect) (fmt_quoting options v.quoting)
      → Step v (length fields) (emit_nullable_record parses_f64 options v fields)
  unfolding emit_nullable_record
  emit_nullable_record-Step options v fields h = finish-Step v (length fields) _ (
      emit_nullable_record_runtime-Settled parses_f64 (fmt_dialect options v.dialect)
        (fmt_quoting options v.quoting) (fmt_nulls options v.nulls) fields v.buffer h)
