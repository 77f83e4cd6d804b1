-- ===== src/Parse/Sound/Quoted.antt =====
-- A quoted field ends, and keeps the invariant.
use coseva.Prelude.{
  ℕ, zero, suc, ◌+◌, ◌≤◌, ◌<◌, drop, true, false, some, ◌≡◌, refl, inl, inr, Bytes, length,
  get_elem?, get_elem?-some, length-drop, Bool-cases, Option-cases, and_right, and_last, arith,
  ◌==◌, ◌&&◌, ◌||◌, not, if◌then◌else◌,
}
use coseva.Error.{ErrorKind}
use coseva.Config.Tail.{confirms, width}
use coseva.Config.Tail.Laws.{confirms-len}
use coseva.Config.Options.{terminator, is_crlf, is_newline, permits_trailing_whitespace}
use coseva.Config.Dialect.Sound.{IsUsable}
use coseva.Parse.Engine.{Settings, Engine, return, byte_is, check_record_limit}
use coseva.Parse.Quoted.{
  skip_whitespace_loop, skip_post_quote_whitespace, end_quoted, follow_quoted,
  finish_quoted_field_runtime,
}
use coseva.Parse.Outcome.{Ends, Keeps->>=, Ends-if, byte_is-in_range}
use coseva.Parse.Sound.{IsSound}
use coseva.Parse.Sound.Push.{check_record_limit-Ends, move-IsSound, reject-Ends}
use coseva.Parse.Sound.Unquoted.{Advances}

space_in_range :
    (input : Bytes) (at : ℕ)
    → (byte_is input at b' ' || byte_is input at b'\t') ≡ true
    → at + 1 ≤ length input
space_in_range input at h = elim (Bool-cases (byte_is input at b' ')) [
  | inl e ↦ omega (arith, byte_is-in_range input at b' ' e)
  | inr e ↦ omega (arith, byte_is-in_range input at b'\t' (rw e at h))
]

skip_whitespace_loop-ends :
    (fuel : ℕ) (input : Bytes) (location : ℕ)
    → location ≤ length input
    → length input < location + fuel
    → (r : ℕ) × (skip_whitespace_loop fuel input location ≡ some r)
      × (location ≤ r)
      × (r ≤ length input)
unfolding skip_whitespace_loop
skip_whitespace_loop-ends zero input location h k = absurd (omega arith)
skip_whitespace_loop-ends (suc fuel) input location h k =
    let spaced = byte_is input location b' ' || byte_is input location b'\t' in
    elim (Bool-cases spaced) [
      | inl more ↦
          let next =
            skip_whitespace_loop-ends fuel input (location + 1) (space_in_range input location more)
              (omega arith) in
          (next.0, rw (more, if◌then◌else◌) next.1, omega (arith, next.2), next.3)
      | inr done ↦ (location, rw (done, if◌then◌else◌) refl, omega arith, h)
    ]

skip_post_quote_whitespace-ends :
    (s : Settings) (input : Bytes) (location : ℕ)
    → location ≤ length input
    → (r : ℕ) × (skip_post_quote_whitespace s input location ≡ some r)
      × (location ≤ r)
      × (r ≤ length input)
unfolding skip_post_quote_whitespace
skip_post_quote_whitespace-ends s input location h =
    elim (Bool-cases (permits_trailing_whitespace s.syntax)) [
      | inl e ↦
          let found = skip_whitespace_loop-ends (length input + 1) input location h (omega arith) in
          (found.0, rw (e, if◌then◌else◌) found.1, found.2, found.3)
      | inr e ↦ (location, rw (e, if◌then◌else◌) refl, omega arith, h)
    ]

module _ (s : Settings) (input : Bytes) where
  end_quoted-Ends :
      (start e : Engine) (record_start location : ℕ)
      → IsSound s input e
      → record_start ≤ location
      → location ≤ length input
      → start.location < location
      → Ends (Advances s input start) (end_quoted s input record_start location e)
  unfolding end_quoted
  end_quoted-Ends start e record_start location sound h k l =
      let e' : Engine = record e { location = location; terminated = true } in
      Keeps->>= _ (Advances s input start) (check_record_limit s input record_start location)
        (return true) e' (check_record_limit-Ends s input record_start location e' h)
        (λ within. (move-IsSound s input e location true k sound, inl l))

  follow_quoted-Ends :
      (start e : Engine) (record_start after next : ℕ)
      → IsUsable s.dialect
      → IsSound s input e
      → record_start ≤ after
      → after < length input
      → start.location < after
      → Ends (Advances s input start) (follow_quoted s input record_start after next e)
  unfolding follow_quoted
  follow_quoted-Ends start e record_start after next usable sound h k l =
      let d = s.dialect in
      let rest = drop (after + 1) input in
      let left = length-drop (after + 1) input in
      Ends-if (Advances s input start) (next == d.delimiter && confirms d.delimiter_tail rest) _ _ e
        (λ at_delimiter.
          let fits =
            confirms-len d.delimiter_tail rest usable.delimiter_tail_clear.0
              (and_right (next == d.delimiter) (confirms d.delimiter_tail rest) at_delimiter) in
          (
            move-IsSound s input e (after + width d.delimiter_tail) e.terminated
                (omega (arith, fits, left)) sound,
            inl (omega arith),
          ))
        (λ no_delimiter.
          Ends-if (Advances s input start)
            (not (is_crlf d.record_ending)
              && next == terminator d.record_ending
              && confirms d.ending_tail rest)
            _ _ e
            (λ at_ending.
              let fits = confirms-len d.ending_tail rest usable.ending_tail_clear.0 (
                and_last (not (is_crlf d.record_ending)) (next == terminator d.record_ending)
                  (confirms d.ending_tail rest) at_ending) in
              end_quoted-Ends start e record_start (after + width d.ending_tail) sound (omega arith)
                (omega (arith, fits, left)) (omega arith))
            (λ no_ending.
              Ends-if (Advances s input start)
                (is_newline d.record_ending && next == b'\r' && byte_is input (after + 1) b'\n') _ _
                e
                (λ at_crlf.
                  end_quoted-Ends start e record_start (after + 2) sound (omega arith)
                    (omega (
                      arith,
                      byte_is-in_range input (after + 1) b'\n' (
                          and_last (is_newline d.record_ending) (next == b'\r')
                            (byte_is input (after + 1) b'\n') at_crlf),
                    ))
                    (omega arith))
                (λ other.
                  reject-Ends s input (Advances s input start)
                    (ErrorKind.unexpected_byte_after_quote next) after e)))

  pub finish_quoted-Ends :
      (start e : Engine) (record_start quote_end : ℕ)
      → IsUsable s.dialect
      → IsSound s input e
      → record_start ≤ quote_end
      → quote_end ≤ length input
      → start.location < quote_end
      → Ends (Advances s input start) (finish_quoted_field_runtime s input record_start quote_end e)
  unfolding finish_quoted_field_runtime
  finish_quoted-Ends start e record_start quote_end usable sound h k l =
      let skipped = skip_post_quote_whitespace-ends s input quote_end k in
      let after = skipped.0 in
      elim (Option-cases (get_elem? input after)) [
        | inl ended ↦
            let e' : Engine = record e { location = after; terminated = false } in
            rw (skipped.1, finish_quoted_field_runtime)
              (rw (ended) (
                Keeps->>= _ (Advances s input start) (check_record_limit s input record_start after)
                  (return true) e'
                  (check_record_limit-Ends s input record_start after e' (omega (arith, skipped.2)))
                  (λ within. (
                    move-IsSound s input e after false skipped.3 sound,
                    inl (omega (arith, skipped.2)),
                  ))))
        | inr (next, found) ↦
            rw (skipped.1, finish_quoted_field_runtime)
              (rw (found) (
                follow_quoted-Ends start e record_start after next usable sound
                  (omega (arith, skipped.2)) (get_elem?-some input after next found)
                  (omega (arith, skipped.2))))
      ]
