-- ===== src/Parse/Sound/Skipping.antt =====
-- The comments and blank lines before a record: skipping them ends, and never goes back.
use coseva.Prelude.{
  or_false_split, subst, false, ℕ, zero, suc, ◌+◌, ◌≤◌, ◌<◌, Bool, true, Option, none, some, ◌≡◌,
  refl, inl, inr, Bytes, length, Bool-cases, Option-cases, arith, ◌==◌, ◌&&◌, ◌||◌, not, leb,
  and_left, and_right, if◌then◌else◌, if_either,
}
use coseva.Config.Options.{BlankRecords}
use coseva.Parse.Engine.{
  Settings, Engine, Parsed, parsed, rejected, panicked, exhausted, ◌>>◌, byte_is,
}
use coseva.Parse.Framing.{
  record_ending_width, blank_lines_loop, skip_blank_lines, resuming, comments_loop, skip_comments,
  is_skip, ignored_loop, skip_ignored_records, find_record_ending, new_resume, fresh,
}
use coseva.Search.{is_some}
use coseva.Config.Dialect.{Dialect}
use coseva.Parse.Outcome.{Ends, Ends->>=, Ends-weaken, byte_is-in_range}
use coseva.Parse.Sound.{IsScannable}
use coseva.Parse.Sound.Endings.{
  record_ending_width-IsStep, IsStep, IsEnding, find_record_ending-ends,
}

-- A checkpoint inside a comment is not before its start.
pub record IsResumable (e : Engine) : Type 0 where
  pub ordered : e.resume.ignored ≡ true → e.resume.record_start ≤ e.resume.scanned_to

-- A place in the input, from which a scan may go on.
pub record IsReady (input : Bytes) (e : Engine) : Type 0 where
  pub located : e.location ≤ length input
  pub resumable : IsResumable e

-- The state has moved on, if at all, to a place that meets a condition.
abbrev pub Skips {ℓ} : {A : Type ℓ} → Bytes → (ℕ → Type 0) → Engine → Engine → A → Type 0
Skips input P start e a = (start.location ≤ e.location) × IsReady input e × P e.location

abbrev pub Anywhere : ℕ → Type 0
Anywhere at = Unit {0}

-- No comment opens at the place.
abbrev pub NoComment : Bytes → Option ℕ → ℕ → Type 0
NoComment input none at = Unit {0}
NoComment input (some lead) at = byte_is input at lead ≡ false

-- No blank line stands at the place, where blank lines are skipped.
abbrev pub NoBlank : Dialect → Bytes → BlankRecords → ℕ → Type 0
NoBlank d input BlankRecords.preserve at = Unit {0}
NoBlank d input BlankRecords.skip at =
    record_ending_width d.record_ending d.ending_tail input at ≡ none

-- Nothing to skip stands at the place.
abbrev pub NoneIgnored : Settings → Bytes → ℕ → Type 0
NoneIgnored s input at =
    NoComment input s.dialect.comment at × NoBlank s.dialect input s.blank_records at

module _ (s : Settings) (input : Bytes) (scannable : IsScannable s input) where
  blank_lines_loop-Ends :
      (fuel : ℕ) (start e : Engine)
      → IsReady input e
      → start.location ≤ e.location
      → length input < e.location + fuel
      → Ends
          (Skips input (NoBlank s.dialect input BlankRecords.skip) start)
          (blank_lines_loop s input fuel e)
  unfolding blank_lines_loop
  blank_lines_loop-Ends zero start e ready from enough = absurd (omega (arith, ready.located))
  blank_lines_loop-Ends (suc fuel) start e ready from enough =
      let ending = s.dialect.record_ending in
      let tail = s.dialect.ending_tail in
      let bounds =
        record_ending_width-IsStep ending tail input e.location
          scannable.usable.ending_tail_clear.0 in
      elim (Option-cases (record_ending_width ending tail input e.location)) [
        | inl line ↦ rw (line, blank_lines_loop) (from, ready, line)
        | inr (step, blank) ↦
            let inside : IsStep input e.location (some step) = rw blank at bounds in
            rw (blank, blank_lines_loop)
              (blank_lines_loop-Ends fuel start (record e { location = e.location + step })
                (record {
                  located = inside.1;
                  resumable = record { ordered = ready.resumable.ordered };
                })
                (omega (arith, inside.0)) (omega (arith, inside.0)))
      ]

  skip_blank_lines-Ends :
      (start e : Engine)
      → IsReady input e
      → start.location ≤ e.location
      → Ends
          (Skips input (NoBlank s.dialect input s.blank_records) start)
          (skip_blank_lines s input e)
  unfolding skip_blank_lines
  skip_blank_lines-Ends start e ready from =
      elim s.blank_records
        as (λ policy.
          Ends {0} {A = Unit {0}} (Skips {0} input (NoBlank s.dialect input policy) start)
            (elim policy [
              | BlankRecords.preserve ↦ parsed e tt
              | BlankRecords.skip ↦ blank_lines_loop s input (length input + 1) e
            ])) [
              | BlankRecords.preserve ↦ (from, ready, tt)
              | BlankRecords.skip ↦
                  blank_lines_loop-Ends (length input + 1) start e ready from (omega arith)
            ]

  -- where the search for the end of a comment begins
  abbrev search_from : Engine → ℕ
  search_from e = if resuming s input e then e.resume.scanned_to else e.location

  search_from-bounds :
      (e : Engine) → IsReady input e → (e.location ≤ search_from e) × (search_from e ≤ length input)
  search_from-bounds e ready =
      let inside = e.resume.ignored && e.resume.record_start == e.location in
      let reached = leb e.resume.scanned_to (length input) in
      if_either (λ n. (e.location ≤ n) × (n ≤ length input)) (inside && reached) _ _
        (λ resumes.
          let here = and_left inside reached resumes in
          let within = and_right inside reached resumes in
          let ordered =
            ready.resumable.ordered
              (and_left e.resume.ignored (e.resume.record_start == e.location) here) in
          let same = and_right e.resume.ignored (e.resume.record_start == e.location) here in
          (ground arith, ground arith))
        (λ anew. (omega arith, ready.located))

  -- nothing stands behind the input
  past_end : (byte : ℕ) → byte_is input (length input) byte ≡ false
  past_end byte = elim (Bool-cases (byte_is input (length input) byte)) [
    | inl stands ↦ absurd (omega (arith, byte_is-in_range input (length input) byte stands))
    | inr nothing ↦ nothing
  ]

  module _ (fuel comment : ℕ) (start e : Engine) (ready : IsReady input e) where
    comment_end :
        (r : Option ℕ)
        → resuming s input e || byte_is input e.location comment ≡ true
        → find_record_ending s.dialect input (search_from e) ≡ some r
        → IsEnding input (search_from e) r
        → start.location ≤ e.location
        → ((end : ℕ)
            → e.location < end
            → end ≤ length input
            → Ends (Skips input (NoComment input (some comment)) start) (
                comments_loop s input fuel comment
                  (record e { location = end; resume = new_resume })))
        → Ends
            (Skips input (NoComment input (some comment)) start)
            (comments_loop s input (suc fuel) comment e)
    unfolding comments_loop
    comment_end none begins found ends from next =
        rw (begins, comments_loop)
          (rw (found, comments_loop)
            (
              omega (arith, ready.located),
              record { located = omega arith; resumable = record { ordered = λ z. ground arith } },
              past_end comment,
            ))
    comment_end (some end) begins found ends from next =
        let bounds = search_from-bounds e ready in
        rw (begins, comments_loop)
          (rw (found, comments_loop) (next end (omega (arith, bounds.0, ends.0)) ends.1))

  comments_loop-Ends :
      (fuel comment : ℕ) (start e : Engine)
      → IsReady input e
      → start.location ≤ e.location
      → length input < e.location + fuel
      → Ends
          (Skips input (NoComment input (some comment)) start)
          (comments_loop s input fuel comment e)
  unfolding comments_loop
  comments_loop-Ends zero comment start e ready from enough = absurd (omega (arith, ready.located))
  comments_loop-Ends (suc fuel) comment start e ready from enough =
      elim (Bool-cases (resuming s input e || byte_is input e.location comment)) [
        | inl begins ↦
            let search =
              find_record_ending-ends s.dialect scannable.usable input (search_from e)
                (search_from-bounds e ready).1 in
            comment_end fuel comment start e ready search.0 begins search.1 search.2 from
              (λ end further inside.
                comments_loop-Ends fuel comment start
                  (record e { location = end; resume = new_resume })
                  (record { located = inside; resumable = record { ordered = λ z. cc } })
                  (omega arith) (omega arith))
        | inr over ↦
            rw (over, comments_loop)
              (
                from,
                ready,
                (or_false_split (resuming s input e) (byte_is input e.location comment) over).1,
              )
      ]

  skip_comments-Ends :
      (start e : Engine)
      → IsReady input e
      → start.location ≤ e.location
      → Ends (Skips input (NoComment input s.dialect.comment) start) (skip_comments s input e)
  unfolding skip_comments
  skip_comments-Ends start e ready from =
      elim s.dialect.comment
        as (λ comment.
          Ends {0} {A = Unit {0}} (Skips {0} input (NoComment input comment) start) (elim comment [
            | none ↦ parsed e tt
            | some lead ↦ comments_loop s input (length input + 2) lead e
          ])) [
            | none ↦ (from, ready, tt)
            | some lead ↦
                comments_loop-Ends (length input + 2) lead start e ready from (omega arith)
          ]

  -- A round that does not move stands where there is nothing to skip.
  abbrev Rested : Engine → Engine → Unit {0} → Type 0
  Rested e e' done =
      (e.location ≤ e'.location)
      × IsReady input e'
      × ((e'.location ≡ e.location) → NoneIgnored s input e'.location)

  round-Ends :
      (e : Engine)
      → IsReady input e
      → Ends (Rested e) ((skip_comments s input >> skip_blank_lines s input) e)
  round-Ends e ready =
      Ends->>= (Skips input (NoComment input s.dialect.comment) e) (Rested e)
        (skip_comments s input) (λ _. skip_blank_lines s input) e
        (skip_comments-Ends e e ready (omega arith))
        (λ e' done skipped.
          Ends-weaken (Skips input (NoBlank s.dialect input s.blank_records) e') (Rested e)
            (skip_blank_lines s input e') (skip_blank_lines-Ends e' e' skipped.1 (omega arith))
            (λ e'' done' blank. (
              omega (arith, skipped.0, blank.0),
              blank.1,
              λ still. (
                subst (NoComment input s.dialect.comment) (omega (arith, skipped.0, blank.0, still))
                    skipped.2,
                blank.2,
              ),
            )))

  -- one round of `ignored_loop`, whatever it ends in
  ignored_round :
      (fuel : ℕ) (skipped : Bool) (start e : Engine) (w : Parsed (Unit {0}))
      → (skip_comments s input >> skip_blank_lines s input) e ≡ w
      → Ends (Rested e) w
      → start.location ≤ e.location
      → ((e' : Engine)
          → IsReady input e'
          → e.location < e'.location
          → Ends (Skips input (NoneIgnored s input) start) (ignored_loop s input fuel true e'))
      → Ends (Skips input (NoneIgnored s input) start) (ignored_loop s input (suc fuel) skipped e)
  unfolding ignored_loop
  ignored_round fuel skipped start e (parsed e' done) round ends from next =
      rw (round, ignored_loop)
        (elim (Bool-cases (e'.location == e.location)) [
          | inl same ↦
              rw (same, ignored_loop) (omega (arith, from, ends.0), ends.1, ends.2 (ground arith))
          | inr moved ↦ rw (moved, ignored_loop) (next e' ends.1 (ground (arith, ends.0)))
        ])
  ignored_round fuel skipped start e (rejected e' error) round ends from next =
      rw (round, ignored_loop) tt
  ignored_round fuel skipped start e panicked round ends from next = absurd ends
  ignored_round fuel skipped start e exhausted round ends from next = absurd ends

  ignored_loop-Ends :
      (fuel : ℕ) (skipped : Bool) (start e : Engine)
      → IsReady input e
      → start.location ≤ e.location
      → length input < e.location + fuel
      → Ends (Skips input (NoneIgnored s input) start) (ignored_loop s input fuel skipped e)
  ignored_loop-Ends zero skipped start e ready from enough = absurd (omega (arith, ready.located))
  ignored_loop-Ends (suc fuel) skipped start e ready from enough =
      ignored_round fuel skipped start e ((skip_comments s input >> skip_blank_lines s input) e)
        refl (round-Ends e ready) from
        (λ e' ready' further.
          ignored_loop-Ends fuel true start e' ready' (omega arith) (omega arith))

  -- Skipping ends, further on if at all, where there is nothing more to skip.
  pub skip_ignored_records-Ends :
      (e : Engine)
      → IsReady input e
      → Ends (Skips input (NoneIgnored s input) e) (skip_ignored_records s input e)
  unfolding skip_ignored_records
  skip_ignored_records-Ends e ready =
      Ends->>= (Skips input (NoneIgnored s input) e) (Skips input (NoneIgnored s input) e)
        (ignored_loop s input (length input + 2) e.resume.ignored) _ e
        (ignored_loop-Ends (length input + 2) e.resume.ignored e e ready (omega arith)
          (omega arith))
        (λ e' skipped ends.
          if_either (λ after. Skips {0} {A = Unit {0}} input (NoneIgnored s input) e after tt)
            (skipped && not e'.resume.ignored) (record e' { resume = fresh e'.location }) e'
            (λ anew. (
              ends.0,
              record { located = ends.1.located; resumable = record { ordered = λ z. cc } },
              ends.2,
            ))
            (λ kept. ends))

-- A format that skips nothing has nothing to skip.
pub none_skipped :
    (d : Dialect) (input : Bytes) (comment : Option ℕ) (policy : BlankRecords) (at : ℕ)
    → is_some comment || is_skip policy ≡ false
    → NoComment input comment at × NoBlank d input policy at
none_skipped d input none BlankRecords.preserve at h = (tt, tt)
none_skipped d input none BlankRecords.skip at h = absurd (cc h)
none_skipped d input (some lead) policy at h = absurd (cc h)
