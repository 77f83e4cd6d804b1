-- ===== src/Parse/Sound/Unquoted.antt =====
-- The single-byte scan of an unquoted field ends, and keeps the invariant.
use coseva.Prelude.{
  ℕ, ◌+◌, ◌-◌, ◌≤◌, ◌<◌, Bool, true, false, [], ◌∷◌, drop, Option, none, some, ◌≡◌, refl, ◌⊎◌, inl,
  inr, Bytes, length, get_elem?-in_range, length-take, Bool-cases, arith, ◌==◌, ◌&&◌, if◌then◌else◌,
}
use coseva.Error.{ErrorKind}
use coseva.Search.{position-lt-length, contains, find2, find3, find}
use coseva.Config.Options.{terminator}
use coseva.Parse.Spans.{Source, slice}
use coseva.Parse.Engine.{
  Settings, Engine, ◌>>=◌, ◌>>◌, return, set_location, note_terminated, strips_cr,
  allow_quote_search, scan_end, check_record_limit, check_scan_end,
}
use coseva.Parse.Push.{push_span}
use coseva.Parse.Unquoted.{
  find_special, end_unquoted, strip_cr, stop_unquoted, after_search, parse_unquoted_field_runtime,
}
use coseva.Parse.Outcome.{Ends, Ends->>=, Keeps->>=, Ends-slice_of}
use coseva.Parse.Sound.{IsSound}
use coseva.Parse.Sound.Push.{
  Pushed, push_span-Ends, check_record_limit-Ends, check_scan_end-Ends, move-IsSound, reject-Ends,
}

-- What a field's parser promises: a sound state further on, or the end of the input.
abbrev pub Advances : Settings → Bytes → Engine → Engine → Bool → Type 0
Advances s input e e' record_end =
    IsSound s input e'
    × ((e.location < e'.location) ⊎ ((e'.location ≡ length input) × (record_end ≡ true)))

module _ (s : Settings) (input : Bytes) where
  end_unquoted-Ends :
      (record_start field_start end : ℕ) (e : Engine)
      → IsSound s input e
      → record_start ≤ end
      → end ≤ length input
      → end ≡ scan_end s input record_start field_start
      → Ends (Advances s input e) (end_unquoted s input record_start field_start end e)
  unfolding end_unquoted scan_end
  end_unquoted-Ends record_start field_start end e sound h k l =
      Keeps->>= _ (Advances s input e) (check_scan_end s input end record_start field_start) _ e
        (check_scan_end-Ends s input end record_start field_start e h)
        (λ within.
          Ends->>= (Pushed s input e) (Advances s input e)
            (push_span s input Source.in_input field_start end end false) _ e
            (push_span-Ends s input Source.in_input field_start end end false e sound)
            (λ e' done pushed. (
              move-IsSound s input e' end false k pushed.0,
              inr (omega (arith, within.0, within.1, l), refl),
            )))

  -- what stands behind the push of a field that a separator ended
  pub step_over-Ends :
      (start e : Engine) (record_start next : ℕ) (ends : Bool)
      → IsSound s input e
      → record_start ≤ next
      → next ≤ length input
      → start.location < next
      → Ends (Advances s input start) (
          (do
            set_location next
            if ends then note_terminated else return tt
            check_record_limit s input record_start next
            return ends)
            e)
  step_over-Ends start e record_start next true sound h k l =
      let e' : Engine = record e { location = next; terminated = true } in
      Keeps->>= _ (Advances s input start) (check_record_limit s input record_start next)
        (return true) e' (check_record_limit-Ends s input record_start next e' h)
        (λ within. (move-IsSound s input e next true k sound, inl l))
  step_over-Ends start e record_start next false sound h k l =
      let e' : Engine = record e { location = next } in
      Keeps->>= _ (Advances s input start) (check_record_limit s input record_start next)
        (return false) e' (check_record_limit-Ends s input record_start next e' h)
        (λ within. (move-IsSound s input e next e.terminated k sound, inl l))

  stop_unquoted-Ends :
      (record_start field_start at byte : ℕ) (e : Engine)
      → IsSound s input e
      → record_start ≤ at
      → e.location ≤ at
      → at < length input
      → Ends (Advances s input e) (stop_unquoted s input record_start field_start at byte e)
  unfolding stop_unquoted
  stop_unquoted-Ends record_start field_start at byte e sound h k l =
      elim (Bool-cases (byte == s.dialect.quote)) [
        | inl quote ↦
            rw (quote, stop_unquoted, if◌then◌else◌)
              (reject-Ends s input (Advances s input e) ErrorKind.unexpected_quote at e)
        | inr other ↦
            let ends = byte == terminator s.dialect.record_ending in
            let field_end = strip_cr input (ends && strips_cr s) field_start at in
            rw (other, stop_unquoted, if◌then◌else◌)
              (Ends->>= (Pushed s input e) (Advances s input e)
                (push_span s input Source.in_input field_start field_end at false) _ e
                (push_span-Ends s input Source.in_input field_start field_end at false e sound)
                (λ e' done pushed.
                  step_over-Ends e e' record_start (at + 1) ends pushed.0 (omega arith)
                    (omega arith) (omega arith)))
      ]

  -- `find_special` finds an index in range.
  find_special-in_range : (xs : Bytes) (i : ℕ) → find_special s xs ≡ some i → i < length xs
  unfolding find_special find2 find3 find
  find_special-in_range xs i h = elim (Bool-cases (allow_quote_search s)) [
    | inl e ↦
        position-lt-length
          (contains
            (s.dialect.delimiter ∷ s.dialect.quote ∷ terminator s.dialect.record_ending ∷ []))
          xs i (rw e at h)
    | inr e ↦
        position-lt-length
          (contains (s.dialect.delimiter ∷ terminator s.dialect.record_ending ∷ [])) xs i
          (rw e at h)
  ]

  scanned :
      (record_start : ℕ) (e : Engine) (i : ℕ)
      → IsSound s input e
      → i < length (slice input e.location (scan_end s input record_start e.location))
      → e.location + i < length input
  unfolding scan_end
  scanned record_start e i sound h =
      let end = scan_end s input record_start e.location in
      omega (arith, length-take (end - e.location) (drop e.location input), sound.located)

  open_field :
      (record_start : ℕ) (e : Engine)
      → IsSound s input e
      → record_start ≤ e.location
      → length input ≤ s.limits.max_record_bytes
      → (e.location ≤ scan_end s input record_start e.location)
        × (record_start ≤ scan_end s input record_start e.location)
        × (scan_end s input record_start e.location ≤ length input)
  unfolding scan_end
  open_field record_start e sound h k =
      (omega (arith, sound.located), omega (arith, sound.located), omega arith)

  -- The branches behind the search, for what it answers.
  special-Ends :
      (record_start : ℕ) (e : Engine) (found : Option ℕ)
      → IsSound s input e
      → record_start ≤ e.location
      → record_start ≤ scan_end s input record_start e.location
      → scan_end s input record_start e.location ≤ length input
      → ((i : ℕ) → found ≡ some i → e.location + i < length input)
      → Ends (Advances s input e) (
          after_search s input record_start e.location
            (scan_end s input record_start e.location)
            found
            e)
  unfolding after_search
  special-Ends record_start e none sound h k l inside =
      let end = scan_end s input record_start e.location in
      end_unquoted-Ends record_start e.location end e sound k l refl
  special-Ends record_start e (some i) sound h k l inside =
      let byte = get_elem?-in_range input (e.location + i) (inside i refl) in
      rw (byte.1, ◌>>=◌)
        (stop_unquoted-Ends record_start e.location (e.location + i) byte.0 e sound (omega arith)
          (omega arith) (inside i refl))

  pub parse_unquoted_field_runtime-Ends :
      (record_start : ℕ) (e : Engine)
      → IsSound s input e
      → record_start ≤ e.location
      → length input ≤ s.limits.max_record_bytes
      → Ends (Advances s input e) (parse_unquoted_field_runtime s input record_start e)
  unfolding parse_unquoted_field_runtime
  parse_unquoted_field_runtime-Ends record_start e sound h k =
      let start = e.location in
      let end = scan_end s input record_start start in
      let bounds = open_field record_start e sound h k in
      let remaining = slice input start end in
      Ends-slice_of (Advances s input e) input start end _ e bounds.0 bounds.2 (
        special-Ends record_start e (find_special s remaining) sound h bounds.1 bounds.2
          (λ i found. scanned record_start e i sound (find_special-in_range remaining i found)))
