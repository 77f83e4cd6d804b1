-- ===== src/Push/Session.antt =====
-- Sequences of calls of one emitter: the document that they leave in the buffer.
use coseva.Prelude.{
  ℕ, Bool, true, List, [], ◌∷◌, ◌++◌, Option, none, some, append_assoc, append-nil, ◌≡◌, refl, sym,
  ap, ◌∙◌, subst, if◌then◌else◌, Bytes, All, length, is_empty, arith,
}
use coseva.Error.{Error}
use coseva.Config.Options.{FieldCount}
use coseva.Config.Format.{FormatOptions}
use coseva.Emit.Field.Orderly.{NeverIfEscaping}
use coseva.Emit.Visitor.{fmt_dialect, fmt_quoting}
use coseva.Push.{PushEmitter, Emitted, emitted, failed, aborted, emit_nullable_record}
use coseva.Push.Commit.{
  SameSettings, commit-SameSettings, commit-expected_fields, commit-started, commit-buffer, opening,
}
use coseva.Push.Laws.{Accepts, appended_to, Step, appended, unchanged, emit_nullable_record-Step}

-- what a call of `emit_nullable_record` needs never to panic
abbrev pub IsReady : Option FormatOptions → PushEmitter → Type 0
IsReady options v = NeverIfEscaping (fmt_dialect options v.dialect) (fmt_quoting options v.quoting)

emitted_of : PushEmitter → Emitted → PushEmitter
emitted_of v (emitted v') = v'
emitted_of v (failed v' e) = v'
emitted_of v aborted = v

emitted_inj : {v v' : PushEmitter} → emitted v ≡ emitted v' → v ≡ v'
unfolding emitted_of
emitted_inj {v = v} e = ap (emitted_of v) e

failed_inj : {v v' : PushEmitter} {e e' : Error} → failed v e ≡ failed v' e' → v ≡ v'
unfolding emitted_of
failed_inj {v = v} e = ap (emitted_of v) e

emitted_failed : {v v' : PushEmitter} {e : Error} → ¬ (emitted v ≡ failed v' e)
emitted_failed e = cc

-- one number of fields in every record
abbrev pub IsUniform : List ℕ → Type 0
IsUniform counts = (n : ℕ) × All (λ m. m ≡ n) counts

-- The buffer of `v'` is that of `v` with text behind it, and in front of it what opens a document
-- if there are records.
abbrev pub Appends : PushEmitter → List ℕ → PushEmitter → Type 0
Appends v counts v' =
    (text : Bytes) × (v'.buffer ≡ (if is_empty counts then [] else opening v) ++ (v.buffer ++ text))

opened_once :
    (v : PushEmitter) (counts : List ℕ)
    → v.started ≡ true
    → (if is_empty counts then [] else opening v) ≡ []
opened_once v counts h = ground arith

module _ (parses_f64 : Bytes → Bool) (options : Option FormatOptions) where
  -- The calls of an emitter that succeed, by their numbers of fields, and those that fail.
  pub data Session : PushEmitter → List ℕ → PushEmitter → Type 0 where
    finished : (v : PushEmitter) → Session v [] v
    kept :
        (v v1 v2 : PushEmitter) (fields : List (Option Bytes)) (counts : List ℕ)
        → emit_nullable_record parses_f64 options v fields ≡ emitted v1
        → Session v1 counts v2
        → Session v (length fields ∷ counts) v2
    lost :
        (v v1 v2 : PushEmitter) (fields : List (Option Bytes)) (counts : List ℕ) (e : Error)
        → emit_nullable_record parses_f64 options v fields ≡ failed v1 e
        → Session v1 counts v2
        → Session v counts v2

  emitted_appended :
      (v v1 : PushEmitter) (n : ℕ) (w : Emitted)
      → w ≡ emitted v1
      → Step v n w
      → (added : Bytes) × (expected : Option ℕ) × Accepts v.field_count v.expected_fields n expected
        × (v1 ≡ appended_to v added expected)
  emitted_appended v v1 n w p (appended added expected a e) =
      (added, expected, a, emitted_inj (sym p ∙ e))
  emitted_appended v v1 n w p (unchanged x e) = absurd (emitted_failed (sym p ∙ e))

  failed_unchanged :
      (v v1 : PushEmitter) (n : ℕ) (w : Emitted) (x : Error) → w ≡ failed v1 x → Step v n w → v1 ≡ v
  failed_unchanged v v1 n w x p (appended added expected a e) = absurd (emitted_failed (sym e ∙ p))
  failed_unchanged v v1 n w x p (unchanged x' e) = failed_inj (sym p ∙ e)

  -- One call that succeeds, from an emitter that is ready.
  record Kept (v v1 : PushEmitter) (n : ℕ) : Type 0 where
    added : Bytes
    settings : SameSettings v v1
    accepts : Accepts v.field_count v.expected_fields n v1.expected_fields
    is_started : v1.started ≡ true
    buffer_is : v1.buffer ≡ opening v ++ (v.buffer ++ added)

  Kept-emitted :
      (v v1 : PushEmitter) (fields : List (Option Bytes))
      → IsReady options v
      → emit_nullable_record parses_f64 options v fields ≡ emitted v1
      → Kept v v1 (length fields)
  unfolding appended_to
  Kept-emitted v v1 fields h e =
      let (added, expected, a, same) =
        emitted_appended v v1 (length fields) _ e
          (emit_nullable_record-Step parses_f64 options v fields h) in
      let v0 : PushEmitter = record v { buffer = v.buffer ++ added; expected_fields = expected } in
      subst (λ v1. Kept v v1 (length fields)) (sym same)
        (record {
          added = added;
          settings = commit-SameSettings v (v.buffer ++ added) expected (length v.buffer);
          accepts =
              subst (Accepts v.field_count v.expected_fields (length fields))
                (sym (commit-expected_fields v0 (length v.buffer))) a;
          is_started = commit-started v0 (length v.buffer);
          buffer_is = commit-buffer v0 (length v.buffer);
        })

  same-IsReady : (v v1 : PushEmitter) → SameSettings v v1 → IsReady options v → IsReady options v1
  same-IsReady v v1 s h =
      subst (λ d. NeverIfEscaping (fmt_dialect options d) (fmt_quoting options v1.quoting))
        (sym s.same_dialect)
        (subst (λ q. NeverIfEscaping (fmt_dialect options v.dialect) (fmt_quoting options q))
          (sym s.same_quoting) h)

  same_count :
      (v v1 : PushEmitter) (n first : ℕ)
      → v.field_count ≡ FieldCount.match_first
      → v.expected_fields ≡ some first
      → Accepts v.field_count v.expected_fields n v1.expected_fields
      → (n ≡ first) × (v1.expected_fields ≡ some first)
  same_count v v1 n first p e a =
      subst (λ c. Accepts FieldCount.match_first c n v1.expected_fields) e
        (subst (λ f. Accepts f v.expected_fields n v1.expected_fields) p a)

  first_count :
      (v v1 : PushEmitter) (n : ℕ)
      → v.field_count ≡ FieldCount.match_first
      → v.expected_fields ≡ none
      → Accepts v.field_count v.expected_fields n v1.expected_fields
      → v1.expected_fields ≡ some n
  first_count v v1 n p e a =
      subst (λ c. Accepts FieldCount.match_first c n v1.expected_fields) e
        (subst (λ f. Accepts f v.expected_fields n v1.expected_fields) p a)

  lost_same :
      (v v1 : PushEmitter) (fields : List (Option Bytes)) (x : Error)
      → IsReady options v
      → emit_nullable_record parses_f64 options v fields ≡ failed v1 x
      → v1 ≡ v
  lost_same v v1 fields x h c =
      failed_unchanged v v1 (length fields) _ x c
        (emit_nullable_record-Step parses_f64 options v fields h)

  later_counts :
      (v v' : PushEmitter) (counts : List ℕ) (first : ℕ)
      → IsReady options v
      → v.field_count ≡ FieldCount.match_first
      → v.expected_fields ≡ some first
      → Session v counts v'
      → All (λ n. n ≡ first) counts
  later_counts _ _ _ first h p e (finished v) = tt
  later_counts _ _ _ first h p e (kept v v1 v2 fields counts c rest) =
      let k = Kept-emitted v v1 fields h c in
      let (n, next) = same_count v v1 (length fields) first p e k.accepts in
      (
        n,
        later_counts v1 v2 counts first (same-IsReady v v1 k.settings h)
            (k.settings.same_field_count ∙ p) next rest,
      )
  later_counts _ _ _ first h p e (lost v v1 v2 fields counts x c rest) =
      let same = sym (lost_same v v1 fields x h c) in
      later_counts v1 v2 counts first (subst (IsReady options) same h)
        (subst (λ u. u.field_count ≡ FieldCount.match_first) same p)
        (subst (λ u. u.expected_fields ≡ some first) same e) rest

  -- Under `FieldCount::MatchFirst`, and from an emitter that expects no count yet, all the records
  -- that a sequence of calls keeps have one number of fields, whatever calls fail between them.
  pub Session-IsUniform :
      (v v' : PushEmitter) (counts : List ℕ)
      → IsReady options v
      → v.field_count ≡ FieldCount.match_first
      → v.expected_fields ≡ none
      → Session v counts v'
      → IsUniform counts
  Session-IsUniform _ _ _ h p e (finished v) = (0, tt)
  Session-IsUniform _ _ _ h p e (kept v v1 v2 fields counts c rest) =
      let k = Kept-emitted v v1 fields h c in
      (
        length fields,
        (
          refl,
          later_counts v1 v2 counts (length fields) (same-IsReady v v1 k.settings h)
              (k.settings.same_field_count ∙ p) (first_count v v1 (length fields) p e k.accepts)
              rest,
        ),
      )
  Session-IsUniform _ _ _ h p e (lost v v1 v2 fields counts x c rest) =
      let same = sym (lost_same v v1 fields x h c) in
      Session-IsUniform v1 v2 counts (subst (IsReady options) same h)
        (subst (λ u. u.field_count ≡ FieldCount.match_first) same p)
        (subst (λ u. u.expected_fields ≡ none) same e) rest

  -- Calls only append: the buffer is what it was with text behind it, and with a byte order mark in
  -- front if the format asks for one, the emitter had not started, and a call succeeded.
  pub Session-buffer :
      (v v' : PushEmitter) (counts : List ℕ)
      → IsReady options v
      → Session v counts v'
      → Appends v counts v'
  Session-buffer _ _ _ h (finished v) = ([], sym (append-nil v.buffer))
  Session-buffer _ _ _ h (kept v v1 v2 fields counts c rest) =
      let k = Kept-emitted v v1 fields h c in
      let (text, e) = Session-buffer v1 v2 counts (same-IsReady v v1 k.settings h) rest in
      (
        k.added ++ text,
        e
            ∙ ap (λ o. o ++ (v1.buffer ++ text)) (opened_once v1 counts k.is_started)
            ∙ ap (λ b. b ++ text) k.buffer_is
            ∙ append_assoc (opening v) (v.buffer ++ k.added) text
            ∙ ap (λ b. opening v ++ b) (append_assoc v.buffer k.added text),
      )
  Session-buffer _ _ _ h (lost v v1 v2 fields counts x c rest) =
      let same = lost_same v v1 fields x h c in
      subst (λ u. Appends u counts v2) same
        (Session-buffer v1 v2 counts (subst (IsReady options) (sym same) h) rest)
