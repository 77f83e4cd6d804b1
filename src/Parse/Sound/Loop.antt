-- ===== src/Parse/Sound/Loop.antt =====
-- The loop over a quoted field's content ends, and keeps the invariant.
use coseva.Prelude.{
  ℕ, zero, suc, ◌+◌, ◌-◌, ◌≤◌, ◌<◌, [], ◌∷◌, ◌++◌, drop, Bool, true, false, none, some, ◌≡◌, ◌≢◌,
  refl, inl, inr, Bytes, length, get_elem?, get_elem?-in_range, get_elem?-some, length-take,
  length-append, Bool-cases, Option-cases, arith, leb,
}
use coseva.Error.{ErrorKind}
use coseva.Search.{position-lt-length, contains, find1, find2, find}
use coseva.Config.Options.{Escape, double_quote, backslash, mysql_escape, unquoted}
use coseva.Config.Dialect.Sound.{IsUsable}
use coseva.Parse.Spans.{Source, slice}
use coseva.Parse.Engine.{
  Settings, Engine, Parser, return, scan_end, check_record_limit, check_scan_end,
  check_scratch_limit, check_record_limit_for,
}
use coseva.Parse.Push.{push_span, copy_segment}
use coseva.Parse.Quoted.{
  find_in_quotes, take_escape, close_quoted, Step, closes, escapes, fails, quoted_step, overrun,
  unterminated_quoted, quoted_arm, quoted_loop, parse_quoted_field_runtime,
}
use coseva.Parse.Outcome.{Ends, Ends->>=, Keeps->>=, Ends-slice_of}
use coseva.Parse.Sound.{IsSound, IsScannable}
use coseva.Parse.Sound.Push.{
  Pushed, push_span-Ends, check_scan_end-Ends, check_scratch_limit-Ends, extend-IsSound,
  reject-Ends, Copied, copy_segment-Ends,
}
use coseva.Parse.Sound.Unquoted.{Advances}
use coseva.Parse.Sound.Quoted.{finish_quoted-Ends}

module _ (s : Settings) (input : Bytes) where
  -- Past the bytes to scan, the record's limit is what was met.
  overrun-Ends :
      (Q : Engine → Bool → Type 0) (record_start end : ℕ) (e : Engine)
      → end ≡ record_start + (s.limits.max_record_bytes + 1)
      → Ends Q (overrun s input record_start end e)
  unfolding overrun check_record_limit check_record_limit_for
  overrun-Ends Q record_start end e h = ground arith

  unterminated_quoted-Ends :
      (Q : Engine → Bool → Type 0) (record_start content_start end : ℕ) (e : Engine)
      → record_start ≤ end
      → Ends Q (unterminated_quoted s input record_start content_start end e)
  unfolding unterminated_quoted
  unterminated_quoted-Ends Q record_start content_start end e h =
      Keeps->>= _ Q (check_scan_end s input end record_start content_start) _ e
        (check_scan_end-Ends s input end record_start content_start e h)
        (λ within. reject-Ends s input Q ErrorKind.unterminated_quoted_field end e)

  close_quoted-Ends :
      (start e : Engine) (record_start content_start scratch_start at cursor : ℕ) (copied : Bool)
      → IsUsable s.dialect
      → IsSound s input e
      → record_start ≤ at
      → start.location < at
      → cursor ≤ at
      → at < length input
      → Ends
          (Advances s input start)
          (close_quoted s input record_start content_start scratch_start at cursor copied e)
  unfolding close_quoted
  close_quoted-Ends start e record_start content_start scratch_start at cursor true usable sound h k
        l m =
      let segment = slice input cursor at in
      let e' : Engine = record e { scratch = e.scratch ++ segment } in
      Ends-slice_of (Advances s input start) input cursor at _ e l (omega arith) (
        Ends->>= (Pushed s input e') (Advances s input start)
          (push_span s input Source.in_scratch scratch_start (length e'.scratch) at true) _ e'
          (push_span-Ends s input Source.in_scratch scratch_start (length e'.scratch) at true e'
            (extend-IsSound s input e segment sound))
          (λ e'' done pushed.
            finish_quoted-Ends s input start e'' record_start (at + 1) usable pushed.0 (omega arith)
              (omega arith) (omega arith)))
  close_quoted-Ends start e record_start content_start scratch_start at cursor false usable sound h
        k l m =
      Ends->>= (Pushed s input e) (Advances s input start)
        (push_span s input Source.in_input content_start at at true) _ e
        (push_span-Ends s input Source.in_input content_start at at true e sound)
        (λ e' done pushed.
          finish_quoted-Ends s input start e' record_start (at + 1) usable pushed.0 (omega arith)
            (omega arith) (omega arith))

  -- What an escape leaves: a longer scratch.
  take_escape-Ends :
      (e : Engine) (content_start scratch_start at cursor decoded : ℕ) (copied : Bool)
      → IsSound s input e
      → content_start ≤ cursor
      → cursor ≤ at
      → at ≤ length input
      → scratch_start ≤ length e.scratch
      → Ends
          (Copied s input e)
          (take_escape s input content_start scratch_start at cursor copied decoded e)
  unfolding take_escape
  take_escape-Ends e content_start scratch_start at cursor decoded copied sound h k l m =
      Ends->>= (Copied s input e) (Copied s input e)
        (copy_segment input copied content_start cursor at) _ e
        (copy_segment-Ends s input copied content_start cursor at e h k l sound)
        (λ e' now made.
          let e'' : Engine = record e' { scratch = e'.scratch ++ (decoded ∷ []) } in
          let longer = length-append e'.scratch (decoded ∷ []) in
          Keeps->>= (Unit {0}) (Copied s input e) (check_scratch_limit s input scratch_start at)
            (return now) e''
            (check_scratch_limit-Ends s input scratch_start at e'' (omega (arith, longer, made.2)))
            (λ within. (
              extend-IsSound s input e' (decoded ∷ []) made.0,
              made.1,
              omega (arith, longer, made.2),
              made.3,
            )))

  no_escape :
      (escape : Escape) (end at byte decoded : ℕ)
      → get_elem? input (at + 1) ≡ none
      → quoted_step s input escape end at byte ≢ escapes decoded
  unfolding quoted_step
  no_escape double_quote end at byte decoded h k = ground arith
  no_escape (backslash escape) end at byte decoded h k = ground arith
  no_escape mysql_escape end at byte decoded h k = ground arith
  no_escape (unquoted escape) end at byte decoded h k = ground arith

  -- A byte that is escaped stands in the input.
  escaped_in_range :
      (escape : Escape) (end at byte decoded : ℕ)
      → quoted_step s input escape end at byte ≡ escapes decoded
      → at + 1 < length input
  unfolding quoted_step
  escaped_in_range escape end at byte decoded h = elim (Option-cases (get_elem? input (at + 1))) [
    | inl beyond ↦ absurd (no_escape escape end at byte decoded beyond h)
    | inr (next, found) ↦ get_elem?-some input (at + 1) next found
  ]

  find_in_quotes-in_range :
      (escape : Escape) (xs : Bytes) (i : ℕ) → find_in_quotes s escape xs ≡ some i → i < length xs
  unfolding find_in_quotes find1 find2 find
  find_in_quotes-in_range double_quote xs i h =
      position-lt-length (contains (s.dialect.quote ∷ [])) xs i h
  find_in_quotes-in_range (backslash escape) xs i h =
      position-lt-length (contains (s.dialect.quote ∷ escape ∷ [])) xs i h
  find_in_quotes-in_range (unquoted escape) xs i h =
      position-lt-length (contains (s.dialect.quote ∷ escape ∷ [])) xs i h
  find_in_quotes-in_range mysql_escape xs i h =
      position-lt-length (contains (s.dialect.quote ∷ b'\\' ∷ [])) xs i h

  pub end_bounds :
      (record_start content_start : ℕ)
      → record_start ≤ content_start
      → content_start ≤ length input
      → (record_start ≤ scan_end s input record_start content_start)
        × (scan_end s input record_start content_start ≤ length input)
  unfolding scan_end
  end_bounds record_start content_start h k = (omega arith, omega arith)

  -- A cursor in the input but past the bytes to scan has met the record's limit.
  overrun_at :
      (record_start content_start cursor : ℕ)
      → IsScannable s input
      → record_start ≤ content_start
      → cursor ≤ length input
      → leb cursor (scan_end s input record_start content_start) ≡ false
      → scan_end s input record_start content_start ≡ record_start + (s.limits.max_record_bytes + 1)
  unfolding scan_end
  overrun_at record_start content_start cursor scannable h k past = elim scannable.quoted_fields [
    | inl few ↦ ground arith
    | inr few ↦ ground arith
  ]

  pub slice_index :
      (cursor end i : ℕ)
      → leb cursor end ≡ true
      → end ≤ length input
      → i < length (slice input cursor end)
      → (cursor + i < end) × (cursor + i < length input)
  slice_index cursor end i h k l =
      let narrow = length-take (end - cursor) (drop cursor input) in
      (ground (arith, narrow), ground (arith, narrow))

  quoted_arm-Ends :
      (start e : Engine) (record_start content_start scratch_start at cursor : ℕ) (copied : Bool)
      (next : Bool → Parser Bool) (step : Step)
      → IsUsable s.dialect
      → IsSound s input e
      → record_start ≤ start.location
      → start.location < content_start
      → content_start ≤ cursor
      → cursor ≤ at
      → at < length input
      → scratch_start ≤ length e.scratch
      → ((decoded : ℕ) (e' : Engine) (now : Bool)
          → step ≡ escapes decoded
          → Copied s input e e' now
          → Ends (Advances s input start) (next now e'))
      → Ends
          (Advances s input start)
          (quoted_arm s input record_start content_start scratch_start at cursor copied next step e)
  unfolding quoted_arm
  quoted_arm-Ends start e record_start content_start scratch_start at cursor copied next
        (fails kind place) usable sound a b c d f g go =
      reject-Ends s input (Advances s input start) kind place e
  quoted_arm-Ends start e record_start content_start scratch_start at cursor copied next closes
        usable sound a b c d f g go =
      close_quoted-Ends start e record_start content_start scratch_start at cursor copied usable
        sound (omega arith) (omega arith) d f
  quoted_arm-Ends start e record_start content_start scratch_start at cursor copied next
        (escapes decoded) usable sound a b c d f g go =
      Ends->>= (Copied s input e) (Advances s input start)
        (take_escape s input content_start scratch_start at cursor copied decoded) next e
        (take_escape-Ends e content_start scratch_start at cursor decoded copied sound c d
          (omega arith) g)
        (λ e' now made. go decoded e' now refl made)

  quoted_loop-Ends :
      (fuel : ℕ) (start e : Engine) (record_start content_start scratch_start cursor : ℕ)
      (copied : Bool)
      → IsScannable s input
      → IsSound s input e
      → record_start ≤ start.location
      → start.location < content_start
      → content_start ≤ cursor
      → cursor ≤ length input
      → length input < cursor + fuel
      → scratch_start ≤ length e.scratch
      → Ends
          (Advances s input start)
          (quoted_loop s input fuel record_start content_start scratch_start cursor cursor copied e)
  unfolding quoted_loop
  quoted_loop-Ends zero start e record_start content_start scratch_start cursor copied scannable
        sound a b c d f g =
      absurd (omega arith)
  quoted_loop-Ends (suc fuel) start e record_start content_start scratch_start cursor copied
        scannable sound a b c d f g =
      let end = scan_end s input record_start content_start in
      let bounds = end_bounds record_start content_start (omega arith) (omega arith) in
      let search = find_in_quotes s s.dialect.escape (slice input cursor end) in
      elim (Bool-cases (leb cursor end)) [
        | inr past ↦
            rw (past, quoted_loop)
              (overrun-Ends (Advances s input start) record_start end e
                (overrun_at record_start content_start cursor scannable (omega arith) d past))
        | inl inside ↦ elim (Option-cases search) [
          | inl nothing ↦
              rw (inside, quoted_loop)
                (rw (nothing) (
                  unterminated_quoted-Ends (Advances s input start) record_start content_start end e
                    bounds.0))
          | inr (i, found) ↦
              let at = cursor + i in
              let here =
                slice_index cursor end i inside bounds.1
                  (find_in_quotes-in_range s.dialect.escape (slice input cursor end) i found) in
              let byte = get_elem?-in_range input at here.1 in
              rw (inside, quoted_loop)
                (rw (found) (
                  rw (byte.1) (
                    quoted_arm-Ends start e record_start content_start scratch_start at cursor
                      copied _ (quoted_step s input s.dialect.escape end at byte.0) scannable.usable
                      sound a b c (omega arith) here.1 g
                      (λ decoded e' now step made.
                        quoted_loop-Ends fuel start e' record_start content_start scratch_start
                          (at + 2) now scannable made.0 a b (omega arith)
                          (omega
                            (arith, escaped_in_range s.dialect.escape end at byte.0 decoded step))
                          (omega arith) (omega (arith, made.2))))))
        ]
      ]

  -- A quote stands at the location.
  pub parse_quoted_field_runtime-Ends :
      (record_start : ℕ) (e : Engine)
      → IsScannable s input
      → IsSound s input e
      → record_start ≤ e.location
      → e.location < length input
      → Ends (Advances s input e) (parse_quoted_field_runtime s input record_start e)
  unfolding parse_quoted_field_runtime
  parse_quoted_field_runtime-Ends record_start e scannable sound h k =
      quoted_loop-Ends (length input + 1) e e record_start (e.location + 1) (length e.scratch)
        (e.location + 1) false scannable sound h (omega arith) (omega arith) (omega arith)
        (omega arith) (omega arith)
