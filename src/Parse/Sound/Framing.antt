-- ===== src/Parse/Sound/Framing.antt =====
-- Reading the next record, behind its comments and blank lines, ends and moves on.
use coseva.Prelude.{
  subst, sym, ℕ, ◌≤◌, ◌<◌, Bool, true, Option, none, some, ◌≡◌, ◌≢◌, inl, inr, Bytes, length, arith,
  ◌==◌, if◌then◌else◌, if_either,
}
use coseva.Error.{ErrorKind}
use coseva.Parse.Engine.{return, Settings, Engine, ◌>>=◌}
use coseva.Parse.Framing.{skip_ignored_records, skips_records, fill_record_spans}
use coseva.Parse.Fields.{parse_positioned_record}
use coseva.Parse.Outcome.{Ends, Ends->>=, Ends-if}
use coseva.Parse.Sound.{IsSound, IsScannable}
use coseva.Parse.Sound.Push.{reject-Ends}
use coseva.Parse.Sound.Positioned.{IsRead, parse_positioned_record-Ends}
use coseva.Parse.Sound.Skipping.{
  IsReady, Skips, NoneIgnored, none_skipped, skip_ignored_records-Ends,
}

module _ (s : Settings) (input : Bytes) where
  -- The end of the input, or a record that takes a byte at least, at a place where neither a comment
  -- nor a blank line to skip stands.
  abbrev pub IsNext : Engine → Engine → Option (ℕ × ℕ × ℕ) → Type 0
  IsNext e e' none = e'.location ≡ length input
  IsNext e e' (some range) =
      (e.location ≤ range.0)
      × NoneIgnored s input range.0
      × (range.0 < range.1)
      × (range.1 ≡ e'.location)
      × IsSound s input e'

module _ (s : Settings) (input : Bytes) (scannable : IsScannable s input) where
  positioned-Ends :
      (start e : Engine) (header : Bool)
      → start.location ≤ e.location
      → IsReady input e
      → NoneIgnored s input e.location
      → e.location ≢ length input
      → Ends
          (IsNext s input start)
          ((do found ← parse_positioned_record s input header; return (some found)) e)
  positioned-Ends start e header from ready clear more =
      Ends->>= (IsRead s input e) (IsNext s input start) (parse_positioned_record s input header) _
        e
        (parse_positioned_record-Ends s input e header scannable
          (omega (arith, ready.located, more)))
        (λ e' range read.
          let further : range.0 < range.1 = elim read.consumes [
            | inl some_bytes ↦ some_bytes
            | inr at_end ↦ omega (arith, at_end, read.starts, ready.located, more)
          ] in
          (
            omega (arith, from, read.starts),
            subst (NoneIgnored s input) (sym read.starts) clear,
            further,
            read.stops,
            read.sound,
          ))

  -- Reading the next record ends: with an error, at the end of the input, or with a record that
  -- takes a byte at least and does not begin before the place reading stood at, where neither a
  -- comment nor a blank line to skip stands. It does not panic and does not run for ever, under a
  -- usable dialect and limits in which every slice is in range: a field may be as long as a record
  -- or as the input, and under the single-byte scan a record may be as long as the input. The place
  -- is in the input, and a checkpoint in a comment is not before its start.
  pub fill_record_spans-Ends :
      (e : Engine) (header : Bool)
      → e.location ≤ length input
      → (e.resume.ignored ≡ true → e.resume.record_start ≤ e.resume.scanned_to)
      → Ends (IsNext s input e) (fill_record_spans s input header e)
  unfolding fill_record_spans
  fill_record_spans-Ends e header located ordered =
      let ready : IsReady input e = record {
        located = located;
        resumable = record { ordered = ordered };
      } in
      if_either (Ends (IsNext s input e)) e.failed _ _
        (λ failed. reject-Ends s input (IsNext s input e) ErrorKind.parser_failed e.location e)
        (λ going.
          Ends->>= (Skips input (NoneIgnored s input) e) (IsNext s input e)
            (if skips_records s input then skip_ignored_records s input else return tt) _ e
            (Ends-if (Skips input (NoneIgnored s input) e) (skips_records s input)
              (skip_ignored_records s input) (return tt) e
              (λ skips. skip_ignored_records-Ends s input scannable e ready)
              (λ keeps. (
                omega arith,
                ready,
                none_skipped s.dialect input s.dialect.comment s.blank_records e.location keeps,
              )))
            (λ e' done skipped.
              Ends-if (IsNext s input e) (e'.location == length input) (return none)
                (do found ← parse_positioned_record s input header; return (some found)) e'
                (λ at_end. ground arith)
                (λ more. positioned-Ends e e' header skipped.0 skipped.1 skipped.2 (ground arith))))
