-- ===== src/Parse/Sound/General.antt =====
-- The general scan of an unquoted field ends, and keeps the invariant.
use coseva.Prelude.{
  ℕ, zero, suc, ◌+◌, ◌-◌, ◌≤◌, ◌<◌, [], ◌∷◌, ◌++◌, drop, Bool, false, ◌≡◌, refl, inl, inr, Bytes,
  length, get_elem?-in_range, length-take, length-append, Option-cases, arith, ◌&&◌, ltb, not,
  if◌then◌else◌, bytes_eq, is_empty,
}
use coseva.Search.{position-lt-length, contains, find1, find}
use coseva.Config.Options.{unquoted_byte}
use coseva.Emit.Policy.{is_mysql_nulls, is_postgres_nulls, mysql_null}
use coseva.Parse.Spans.{Source, slice}
use coseva.Parse.Engine.{
  Settings, Engine, Parser, ◌>>=◌, ◌>>◌, byte_of, scratch_extend, scan_end, check_scan_end,
  check_scratch_limit,
}
use coseva.Parse.Push.{push_span, push_null_span}
use coseva.Parse.General.{
  unescaped, unescape_arm, unescape_loop, push_unescaped_span, push_escaped_or_raw,
  push_general_unquoted_span, end_general,
}
use coseva.Parse.Outcome.{Ends, Ends->>=, Ends-weaken, Keeps->>=, Ends-slice_of, Ends-if}
use coseva.Parse.Sound.{IsSound}
use coseva.Parse.Sound.Push.{
  Pushed, push_span-Ends, push_null_span-Ends, check_scan_end-Ends, check_scratch_limit-Ends,
  extend-IsSound, move-IsSound,
}
use coseva.Parse.Sound.Unquoted.{Advances}
use coseva.Parse.Sound.Loop.{end_bounds}

-- Only the scratch has changed, and only grown.
abbrev Grown : Settings → Bytes → Engine → Engine → Unit {0} → Type 0
Grown s input e e' done =
    IsSound s input e' × (e'.location ≡ e.location) × (length e.scratch ≤ length e'.scratch)

module _ (s : Settings) (input : Bytes) where
  -- `scratch_extend` of two pieces
  extend-Ends :
      (start e : Engine) (piece : Bytes) (k : Parser (Unit {0}))
      → Grown s input start e tt
      → ((e' : Engine) → Grown s input start e' tt → Ends (Grown s input start) (k e'))
      → Ends (Grown s input start) ((scratch_extend piece >> k) e)
  extend-Ends start e piece k grown next =
      next (record e { scratch = e.scratch ++ piece })
        (
          extend-IsSound s input e piece grown.0,
          grown.1,
          omega (arith, length-append e.scratch piece, grown.2),
        )

  unescape_arm-Ends :
      (start e : Engine) (escape at field_end : ℕ) (go : ℕ → Parser (Unit {0}))
      → Grown s input start e tt
      → at < field_end
      → field_end ≤ length input
      → ((next : ℕ) (e' : Engine)
          → at < next
          → next ≤ field_end
          → Grown s input start e' tt
          → Ends (Grown s input start) (go next e'))
      → Ends (Grown s input start) (unescape_arm s input escape at field_end go e)
  unfolding unescape_arm
  unescape_arm-Ends start e escape at field_end go grown h k next =
      let Q = Grown s input start in
      let taken : ℕ → Parser (Unit {0}) =
        λ escaped. scratch_extend (unescaped s input escaped ∷ []) >> go (at + 2) in
      Ends-if Q (ltb (at + 1) field_end) (byte_of input (at + 1) >>= taken)
        (scratch_extend (escape ∷ []) >> go (at + 1)) e
        (λ more.
          let byte = get_elem?-in_range input (at + 1) (ground arith) in
          rw (byte.1, ◌>>=◌)
            (extend-Ends start e (unescaped s input byte.0 ∷ []) (go (at + 2)) grown
              (λ e'. next (at + 2) e' (omega arith) (ground arith))))
        (λ last.
          extend-Ends start e (escape ∷ []) (go (at + 1)) grown
            (λ e'. next (at + 1) e' (omega arith) (omega arith)))

  unescape_loop-Ends :
      (fuel : ℕ) (start e : Engine) (escape cursor field_end : ℕ)
      → Grown s input start e tt
      → cursor ≤ field_end
      → field_end ≤ length input
      → field_end < cursor + fuel
      → Ends (Grown s input start) (unescape_loop s input fuel escape cursor cursor field_end e)
  unfolding unescape_loop find1 find
  unescape_loop-Ends zero start e escape cursor field_end grown h k l = absurd (omega arith)
  unescape_loop-Ends (suc fuel) start e escape cursor field_end grown h k l =
      let field = slice input cursor field_end in
      let Q = Grown s input start in
      elim (Option-cases (find1 escape field)) [
        | inl nothing ↦
            rw (nothing, unescape_loop)
              (Ends-slice_of Q input cursor field_end (λ segment. scratch_extend segment) e h k
                (
                  extend-IsSound s input e field grown.0,
                  grown.1,
                  omega (arith, length-append e.scratch field, grown.2),
                ))
        | inr (i, found) ↦
            let at = cursor + i in
            let narrow = length-take (field_end - cursor) (drop cursor input) in
            let inside : at < field_end =
              omega (arith, narrow, position-lt-length (contains (escape ∷ [])) field i found) in
            let go : ℕ → Parser (Unit {0}) =
              λ next. unescape_loop s input fuel escape next next field_end in
            let arm = unescape_arm s input escape at field_end go in
            rw (found, unescape_loop)
              (Ends-slice_of Q input cursor at (λ segment. scratch_extend segment >> arm) e
                (omega arith) (omega arith)
                (extend-Ends start e (slice input cursor at) arm grown (λ e' grown'.
                  unescape_arm-Ends start e' escape at field_end go grown' inside k
                    (λ next e'' later within grown''.
                      unescape_loop-Ends fuel start e'' escape next field_end grown'' within k
                        (omega arith)))))
      ]

  push_unescaped_span-Ends :
      (e : Engine) (escape field_start field_end at : ℕ)
      → IsSound s input e
      → field_start ≤ field_end
      → field_end ≤ length input
      → Ends (Pushed s input e) (push_unescaped_span s input escape field_start field_end at e)
  unfolding push_unescaped_span
  push_unescaped_span-Ends e escape field_start field_end at sound h k =
      let fuel = field_end - field_start + 1 in
      let start = length e.scratch in
      Ends->>= (Grown s input e) (Pushed s input e)
        (unescape_loop s input fuel escape field_start field_start field_end) _ e
        (unescape_loop-Ends fuel e e escape field_start field_end (sound, refl, omega arith) h k
          (omega arith))
        (λ e' done grown.
          Keeps->>= (Unit {0}) (Pushed s input e) (check_scratch_limit s input start at) _ e'
            (check_scratch_limit-Ends s input start at e' grown.2)
            (λ within.
              Ends-weaken (Pushed s input e') (Pushed s input e)
                (push_span s input Source.in_scratch start (length e'.scratch) at false e')
                (push_span-Ends s input Source.in_scratch start (length e'.scratch) at false e'
                  grown.0)
                (λ e'' done' pushed. (pushed.0, omega (arith, pushed.1, grown.1)))))

  push_escaped_or_raw-Ends :
      (e : Engine) (field_start field_end at : ℕ) (raw : Bytes)
      → IsSound s input e
      → field_start ≤ field_end
      → field_end ≤ length input
      → Ends (Pushed s input e) (push_escaped_or_raw s input field_start field_end at raw e)
  unfolding push_escaped_or_raw
  push_escaped_or_raw-Ends e field_start field_end at raw sound h k =
      let Q = Pushed s input e in
      let plain = push_span s input Source.in_input field_start field_end at false in
      let pushed = push_span-Ends s input Source.in_input field_start field_end at false e sound in
      elim (Option-cases (unquoted_byte s.dialect.escape)) [
        | inl none_set ↦ rw (none_set, push_escaped_or_raw) pushed
        | inr (escape, set_to) ↦
            rw (set_to, push_escaped_or_raw)
              (Ends-if Q (contains raw escape)
                (push_unescaped_span s input escape field_start field_end at) plain e
                (λ escaped. push_unescaped_span-Ends e escape field_start field_end at sound h k)
                (λ clear. pushed))
      ]

  pub push_general-Ends :
      (e : Engine) (field_start field_end at : ℕ) (header : Bool)
      → IsSound s input e
      → field_start ≤ field_end
      → field_end ≤ length input
      → Ends
          (Pushed s input e)
          (push_general_unquoted_span s input field_start field_end at header e)
  unfolding push_general_unquoted_span
  push_general-Ends e field_start field_end at header sound h k =
      let Q = Pushed s input e in
      let raw = slice input field_start field_end in
      let null = push_null_span s input field_start in
      let value = push_escaped_or_raw s input field_start field_end at raw in
      let null_ends = push_null_span-Ends s input field_start e sound (omega arith) in
      Ends-slice_of Q input field_start field_end _ e h k (
        Ends-if Q (not header && is_mysql_nulls s.nulls && bytes_eq raw mysql_null) null
          (if not header && is_postgres_nulls s.nulls && is_empty raw then null else value) e
          (λ reads_null. null_ends)
          (λ other.
            Ends-if Q (not header && is_postgres_nulls s.nulls && is_empty raw) null value e
              (λ reads_null. null_ends)
              (λ field. push_escaped_or_raw-Ends e field_start field_end at raw sound h k)))

  -- Where no limit has cut the scan, it reaches the end of the input.
  unlimited :
      (record_start field_start : ℕ)
      → scan_end s input record_start field_start ≤ record_start + s.limits.max_record_bytes
      → scan_end s input record_start field_start ≤ field_start + s.limits.max_field_bytes
      → scan_end s input record_start field_start ≡ length input
  unfolding scan_end
  unlimited record_start field_start h k = omega arith

  pub end_general-Ends :
      (record_start : ℕ) (e : Engine) (header : Bool)
      → IsSound s input e
      → record_start ≤ e.location
      → Ends (Advances s input e) (
          end_general s input record_start e.location
            (scan_end s input record_start e.location)
            header
            e)
  unfolding end_general
  end_general-Ends record_start e header sound h =
      let end = scan_end s input record_start e.location in
      let bounds = end_bounds s input record_start e.location h sound.located in
      Keeps->>= _ (Advances s input e) (check_scan_end s input end record_start e.location) _ e
        (check_scan_end-Ends s input end record_start e.location e bounds.0)
        (λ within.
          let whole = unlimited record_start e.location within.0 within.1 in
          Ends->>= (Pushed s input e) (Advances s input e)
            (push_general_unquoted_span s input e.location end end header) _ e
            (push_general-Ends e e.location end end header sound
              (omega (arith, whole, sound.located)) bounds.1)
            (λ e' done pushed.
              (move-IsSound s input e' end false bounds.1 pushed.0, inr (whole, refl))))
