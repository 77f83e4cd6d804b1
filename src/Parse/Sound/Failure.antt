-- ===== src/Parse/Sound/Failure.antt =====
-- A parser that has reported an error reads nothing more.
use coseva.Prelude.{
  ℕ, zero, suc, ◌+◌, Bool, true, none, some, ◌≡◌, refl, inl, inr, Bytes, length, Bool-cases,
  Option-cases, ◌==◌, ◌||◌, ltb, if◌then◌else◌, if_either, subst,
}
use coseva.Config.Options.{BlankRecords, applies_to_scope}
use coseva.Error.{Error, ErrorKind}
use coseva.Parse.Spans.{max_offset}
use coseva.Parse.Engine.{
  Settings, Engine, Parser, Parsed, parsed, rejected, panicked, exhausted, ◌>>◌, ◌>>=◌, return,
  byte_is, reject, error_for,
}
use coseva.Parse.Framing.{
  record_ending_width, blank_lines_loop, skip_blank_lines, resuming, comments_loop, skip_comments,
  ignored_loop, skip_ignored_records, skips_records, fill_record_spans, find_record_ending,
  new_resume,
}
use coseva.Parse.Fields.{
  fail_on_error, begin_spans, trim_spans, parse_or_fail, parse_record, parse_positioned_record,
}

-- An error of the operation leaves a state that has failed.
abbrev Fails {ℓ} : {A : Type ℓ} → Parsed A → Type 0
Fails (parsed e a) = Unit {0}
Fails (rejected e error) = e.failed ≡ true
Fails panicked = Unit {0}
Fails exhausted = Unit {0}

module _ {ℓ κ} {A : Type ℓ} {B : Type κ} where
  Fails-value :
      (w : Parsed A) (f : A → Parser B) (e : Engine)
      → Fails w
      → ((e' : Engine) (a : A) → Fails (f a e'))
      → Fails (((λ _. w) >>= f) e)
  Fails-value (parsed e' a) f e h k = k e' a
  Fails-value (rejected e' error) f e h k = h
  Fails-value panicked f e h k = tt
  Fails-value exhausted f e h k = tt

  Fails->>= :
      (m : Parser A) (f : A → Parser B) (e : Engine)
      → Fails (m e)
      → ((e' : Engine) (a : A) → Fails (f a e'))
      → Fails ((m >>= f) e)
  Fails->>= m f e = Fails-value (m e) f e

fail_on_error-Fails : (w : Parsed (Unit {0})) → Fails (fail_on_error w)
fail_on_error-Fails (parsed e done) = tt
fail_on_error-Fails (rejected e error) = refl
fail_on_error-Fails panicked = tt
fail_on_error-Fails exhausted = tt

module _ (s : Settings) (input : Bytes) where
  blank_lines_loop-Fails : (fuel : ℕ) (e : Engine) → Fails (blank_lines_loop s input fuel e)
  unfolding blank_lines_loop
  blank_lines_loop-Fails zero e = tt
  blank_lines_loop-Fails (suc fuel) e =
      elim (Option-cases
        (record_ending_width s.dialect.record_ending s.dialect.ending_tail input e.location)) [
          | inl line ↦ rw (line, blank_lines_loop) tt
          | inr (step, blank) ↦
              rw (blank, blank_lines_loop)
                (blank_lines_loop-Fails fuel (record e { location = e.location + step }))
        ]

  skip_blank_lines-Fails : (e : Engine) → Fails (skip_blank_lines s input e)
  unfolding skip_blank_lines
  skip_blank_lines-Fails e =
      elim s.blank_records
        as (λ policy. Fails {0} {A = Unit {0}} (elim policy [
          | BlankRecords.preserve ↦ parsed e tt
          | BlankRecords.skip ↦ blank_lines_loop s input (length input + 1) e
        ])) [
          | BlankRecords.preserve ↦ tt
          | BlankRecords.skip ↦ blank_lines_loop-Fails (length input + 1) e
        ]

  comments_loop-Fails :
      (fuel comment : ℕ) (e : Engine) → Fails (comments_loop s input fuel comment e)
  unfolding comments_loop
  comments_loop-Fails zero comment e = tt
  comments_loop-Fails (suc fuel) comment e =
      elim (Bool-cases (resuming s input e || byte_is input e.location comment)) [
        | inl begins ↦
            let found =
              find_record_ending s.dialect input
                (if resuming s input e then e.resume.scanned_to else e.location) in
            elim (Option-cases found) [
              | inl starved ↦ rw (begins, comments_loop) (rw (starved, comments_loop) tt)
              | inr (r, ended) ↦ elim (Option-cases r) [
                | inl missing ↦
                    rw (begins, comments_loop)
                      (rw (ended, comments_loop) (rw (missing, comments_loop) tt))
                | inr (end, at_end) ↦
                    rw (begins, comments_loop)
                      (rw (ended, comments_loop)
                        (rw (at_end, comments_loop)
                          (comments_loop-Fails fuel comment
                            (record e { location = end; resume = new_resume }))))
              ]
            ]
        | inr over ↦ rw (over, comments_loop) tt
      ]

  skip_comments-Fails : (e : Engine) → Fails (skip_comments s input e)
  unfolding skip_comments
  skip_comments-Fails e =
      elim s.dialect.comment
        as (λ comment. Fails {0} {A = Unit {0}} (elim comment [
          | none ↦ parsed e tt
          | some lead ↦ comments_loop s input (length input + 2) lead e
        ])) [ none ↦ tt | some lead ↦ comments_loop-Fails (length input + 2) lead e ]

  ignored_round-Fails :
      (fuel : ℕ) (skipped : Bool) (e : Engine) (w : Parsed (Unit {0}))
      → (skip_comments s input >> skip_blank_lines s input) e ≡ w
      → Fails w
      → ((e' : Engine) → Fails (ignored_loop s input fuel true e'))
      → Fails (ignored_loop s input (suc fuel) skipped e)
  unfolding ignored_loop
  ignored_round-Fails fuel skipped e (parsed e' done) round fails next =
      rw (round, ignored_loop)
        (elim (Bool-cases (e'.location == e.location)) [
          | inl same ↦ rw (same, ignored_loop) tt
          | inr moved ↦ rw (moved, ignored_loop) (next e')
        ])
  ignored_round-Fails fuel skipped e (rejected e' error) round fails next =
      rw (round, ignored_loop) fails
  ignored_round-Fails fuel skipped e panicked round fails next = rw (round, ignored_loop) tt
  ignored_round-Fails fuel skipped e exhausted round fails next = rw (round, ignored_loop) tt

  ignored_loop-Fails :
      (fuel : ℕ) (skipped : Bool) (e : Engine) → Fails (ignored_loop s input fuel skipped e)
  unfolding ignored_loop
  ignored_loop-Fails zero skipped e = tt
  ignored_loop-Fails (suc fuel) skipped e =
      ignored_round-Fails fuel skipped e ((skip_comments s input >> skip_blank_lines s input) e)
        refl
        (Fails->>= (skip_comments s input) (λ _. skip_blank_lines s input) e (skip_comments-Fails e)
          (λ e' done. skip_blank_lines-Fails e'))
        (λ e'. ignored_loop-Fails fuel true e')

  skip_ignored_records-Fails : (e : Engine) → Fails (skip_ignored_records s input e)
  unfolding skip_ignored_records
  skip_ignored_records-Fails e =
      Fails->>= (ignored_loop s input (length input + 2) e.resume.ignored) _ e
        (ignored_loop-Fails (length input + 2) e.resume.ignored e) (λ e' skipped. tt)

  begin_spans-Fails : (e : Engine) → Fails (begin_spans s input e)
  unfolding begin_spans reject
  begin_spans-Fails e =
      if_either (Fails {0} {A = Unit {0}}) (ltb max_offset (length input)) _ _ (λ long. refl)
        (λ fits. tt)

  trim_spans-Fails : (header : Bool) (e : Engine) → Fails (trim_spans s input header e)
  unfolding trim_spans
  trim_spans-Fails header e =
      if_either (Fails {0} {A = Unit {0}}) (applies_to_scope s.trim header) _ _ (λ trims. tt)
        (λ keeps. tt)

  parse_positioned_record-Fails :
      (header : Bool) (e : Engine) → Fails (parse_positioned_record s input header e)
  unfolding parse_positioned_record parse_or_fail
  parse_positioned_record-Fails header e =
      Fails->>= (begin_spans s input) _ e (begin_spans-Fails e) (λ first done.
        Fails->>= (parse_or_fail s input first.location header) _ first
          (fail_on_error-Fails (parse_record s input first.location header first))
          (λ second done'.
            Fails->>= (trim_spans s input header) _ second (trim_spans-Fails header second)
              (λ third done''. tt)))

  fill_record_spans-Fails :
      (header : Bool) (e : Engine) → Fails (fill_record_spans s input header e)
  unfolding fill_record_spans reject
  fill_record_spans-Fails header e =
      if_either (Fails {0}) e.failed _ _ (λ failed. failed)
        (λ going.
          (Fails->>= (if skips_records s input then skip_ignored_records s input else return tt) _ e
            (elim (Bool-cases (skips_records s input)) [
              | inl skips ↦ rw (skips, if◌then◌else◌) (skip_ignored_records-Fails e)
              | inr keeps ↦ rw (keeps, if◌then◌else◌) tt
            ])
            (λ e' done. elim (Bool-cases (e'.location == length input)) [
              | inl at_end ↦ rw (at_end, if◌then◌else◌) tt
              | inr more ↦
                  rw (more, if◌then◌else◌)
                    (Fails->>= (parse_positioned_record s input header) _ e'
                      (parse_positioned_record-Fails header e') (λ e'' range. tt))
            ])))

-- An error is final: after a call that reports one, the next call, whatever the bytes it is given,
-- reports that the parser has failed and leaves the state as it is.
pub fill_record_spans-rejected :
    (s : Settings) (input later : Bytes) (header header' : Bool) (e e' : Engine) (error : Error)
    → fill_record_spans s input header e ≡ rejected e' error
    → fill_record_spans s later header' e'
      ≡ rejected e' (error_for s later ErrorKind.parser_failed e'.location (length e'.spans) e')
unfolding fill_record_spans reject
fill_record_spans-rejected s input later header header' e e' error fails =
    let failed : e'.failed ≡ true = subst Fails fails (fill_record_spans-Fails s input header e) in
    rw (failed, fill_record_spans) refl
