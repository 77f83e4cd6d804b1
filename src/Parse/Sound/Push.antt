-- ===== src/Parse/Sound/Push.antt =====
-- The checks of the limits and the pushing of a field keep the invariant.
use coseva.Prelude.{
  ℕ, ◌+◌, ◌-◌, ◌≤◌, ◌<◌, Bool, true, false, List, some, [], ◌∷◌, ◌++◌, ◌≡◌, refl, Bytes, length,
  length-append, Bool-cases, Option-cases, inl, inr, arith, leb, ◌==◌, if◌then◌else◌,
}
use coseva.Error.{ErrorKind}
use coseva.Parse.Spans.{Source, Span, try_push_input_bounded, try_push_scratch_bounded, null_span}
use coseva.Parse.Engine.{
  Settings, Engine, check_record_limit_for, check_record_limit, check_scan_end_for, check_scan_end,
  reject, check_scratch_limit_for, check_scratch_limit,
}
use coseva.Parse.Push.{push_span, try_push, span_limit_error, push_null_span, copy_segment}
use coseva.Parse.Push.Laws.{copied_bytes, copy_segment-parsed}
use coseva.Parse.Outcome.{Ends, Keeps}
use coseva.Parse.Sound.{IsSound, Fits, All-append, fitting-longer, room}

module _ (s : Settings) (input : Bytes) where
  pub reject-Ends {ℓ} :
      {A : Type ℓ} (Q : Engine → A → Type 0) (kind : ErrorKind) (at : ℕ) (e : Engine)
      → Ends Q (reject s input kind at e)
  unfolding reject
  reject-Ends Q kind at e = tt

  pub check_record_limit-Ends :
      (record_start at : ℕ) (e : Engine)
      → record_start ≤ at
      → Ends
          (Keeps e (at ≤ record_start + s.limits.max_record_bytes))
          (check_record_limit s input record_start at e)
  unfolding check_record_limit check_record_limit_for
  check_record_limit-Ends record_start at e h = ground arith

  pub check_scan_end-Ends :
      (at record_start field_start : ℕ) (e : Engine)
      → record_start ≤ at
      → Ends
          (Keeps e (
            (at ≤ record_start + s.limits.max_record_bytes)
            × (at ≤ field_start + s.limits.max_field_bytes)))
          (check_scan_end s input at record_start field_start e)
  unfolding check_scan_end check_scan_end_for check_record_limit_for
  check_scan_end-Ends at record_start field_start e h = ground arith

  pub check_scratch_limit-Ends :
      (scratch_start at : ℕ) (e : Engine)
      → scratch_start ≤ length e.scratch
      → Ends (Keeps e (Unit {0})) (check_scratch_limit s input scratch_start at e)
  unfolding check_scratch_limit check_scratch_limit_for
  check_scratch_limit-Ends scratch_start at e h = ground arith

  push_one :
      (e : Engine) (span : Span)
      → IsSound s input e
      → length e.spans < s.limits.max_fields
      → Fits s (length input) (length e.scratch) span
      → IsSound s input (record e { spans = e.spans ++ (span ∷ []) })
  push_one e span sound room_left fits = record {
    located = sound.located;
    sized = sound.sized;
    counted = omega (arith, length-append e.spans (span ∷ []));
    fitting =
        All-append (Fits s (length input) (length e.scratch)) e.spans (span ∷ []) sound.fitting
          (fits, tt);
  }

  -- Pushing a field ends in a sound state at the same place, or in an error.
  abbrev pub Pushed : Engine → Engine → Unit {0} → Type 0
  Pushed e e' done = IsSound s input e' × (e'.location ≡ e.location)

  pub span_limit_error-Ends :
      (Q : Engine → Unit {0} → Type 0) (at : ℕ) (e : Engine)
      → Ends Q (span_limit_error s input at e)
  unfolding span_limit_error
  span_limit_error-Ends Q at e = elim (Bool-cases (leb s.limits.max_fields (length e.spans))) [
    | inl full ↦
        rw (full, if◌then◌else◌)
          (reject-Ends Q (ErrorKind.too_many_fields s.limits.max_fields) at e)
    | inr room_left ↦
        rw (room_left, if◌then◌else◌)
          (reject-Ends Q (ErrorKind.field_too_large s.limits.max_field_bytes) at e)
  ]

  new_span : Source → ℕ → ℕ → Bool → Span
  new_span source start end quoted = record {
    source = source;
    start = start;
    end = end;
    quoted = quoted;
    null = false;
  }

  -- What an accepted span meets.
  accepted :
      (source : Source) (start end : ℕ) (quoted : Bool) (e : Engine) (spans : List Span)
      → IsSound s input e
      → try_push s input source start end quoted e ≡ some spans
      → (spans ≡ e.spans ++ (new_span source start end quoted ∷ []))
        × (length e.spans < s.limits.max_fields)
        × (start ≤ end)
        × (end ≤ room (length input) (length e.scratch) source)
        × (end - start ≤ s.limits.max_field_bytes)
  unfolding new_span try_push_input_bounded try_push_scratch_bounded
  accepted Source.in_input start end quoted e spans sound h = ground arith
  accepted Source.in_scratch start end quoted e spans sound h = ground arith

  pub push_span-Ends :
      (source : Source) (start end at : ℕ) (quoted : Bool) (e : Engine)
      → IsSound s input e
      → Ends (Pushed e) (push_span s input source start end at quoted e)
  unfolding push_span new_span
  push_span-Ends source start end at quoted e sound =
      elim (Option-cases (try_push s input source start end quoted e)) [
        | inl refused ↦ rw (refused, push_span) (span_limit_error-Ends (Pushed e) at e)
        | inr (spans, pushed) ↦
            let h = accepted source start end quoted e spans sound pushed in
            rw (pushed, push_span, h.0)
              (
                push_one e (new_span source start end quoted) sound h.1
                    (record { ordered = h.2; within = h.3; narrow = h.4 }),
                refl,
              )
      ]

  pub push_null_span-Ends :
      (at : ℕ) (e : Engine)
      → IsSound s input e
      → at ≤ length input
      → Ends (Pushed e) (push_null_span s input at e)
  unfolding push_null_span
  push_null_span-Ends at e sound h = elim (Bool-cases (length e.spans == s.limits.max_fields)) [
    | inl full ↦
        rw (full, push_null_span, if◌then◌else◌)
          (reject-Ends (Pushed e) (ErrorKind.too_many_fields s.limits.max_fields) at e)
    | inr room_left ↦
        let inside : leb at e.input_len ≡ true = ground (arith, sound.sized) in
        rw (room_left, inside, if◌then◌else◌)
          (
            push_one e (null_span at) sound (ground (arith, sound.counted))
                (record { ordered = omega arith; within = h; narrow = omega arith }),
            refl,
          )
  ]

  -- A longer scratch keeps the invariant, and so does another place in the input.
  pub extend-IsSound :
      (e : Engine) (bytes : Bytes)
      → IsSound s input e
      → IsSound s input (record e { scratch = e.scratch ++ bytes })
  extend-IsSound e bytes sound = record {
    located = sound.located;
    sized = sound.sized;
    counted = sound.counted;
    fitting =
        fitting-longer s (length input) (length e.scratch) (length (e.scratch ++ bytes)) e.spans
          (omega (arith, length-append e.scratch bytes)) sound.fitting;
  }

  pub move-IsSound :
      (e : Engine) (at : ℕ) (terminated : Bool)
      → at ≤ length input
      → IsSound s input e
      → IsSound s input (record e { location = at; terminated = terminated })
  move-IsSound e at terminated h sound = record {
    located = h;
    sized = sound.sized;
    counted = sound.counted;
    fitting = sound.fitting;
  }

  -- Copying takes the scratch further.
  abbrev pub Copied : Engine → Engine → Bool → Type 0
  Copied e e' copied =
      IsSound s input e'
      × (e'.location ≡ e.location)
      × (length e.scratch ≤ length e'.scratch)
      × (copied ≡ true)

  pub copy_segment-Ends :
      (copied : Bool) (content_start start end : ℕ) (e : Engine)
      → content_start ≤ start
      → start ≤ end
      → end ≤ length input
      → IsSound s input e
      → Ends (Copied e) (copy_segment input copied content_start start end e)
  copy_segment-Ends copied content_start start end e h k l sound =
      let more = copied_bytes input copied content_start start end in
      rw (copy_segment-parsed input copied content_start start end e h k l)
        (extend-IsSound e more sound, refl, omega (arith, length-append e.scratch more), refl)
