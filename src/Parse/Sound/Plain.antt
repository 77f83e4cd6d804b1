-- ===== src/Parse/Sound/Plain.antt =====
-- The kernel for records without quotes ends, and keeps the invariant.
use coseva.Prelude.{
  ℕ, zero, suc, ◌+◌, ◌-◌, ◌≤◌, ◌<◌, Bool, true, false, some, [], ◌∷◌, ◌≡◌, refl, ◌⊎◌, inl, inr,
  Bytes, length, get_elem?-in_range, length-take, drop, length-drop, Option-cases, arith, ◌==◌,
  ◌&&◌, ◌||◌, not, ltb, if◌then◌else◌, if_either,
}
use coseva.Error.{ErrorKind}
use coseva.Search.{position-lt-length, contains, find1, find3, find}
use coseva.Config.Options.{quoting_enabled, permits_unquoted_quotes, terminator}
use coseva.Parse.Spans.{Source, slice}
use coseva.Parse.Engine.{
  Settings, Engine, Parser, ◌>>◌, return, set_location, note_terminated, clear_terminated,
  strips_cr, check_record_limit,
}
use coseva.Parse.Push.{push_span}
use coseva.Parse.Unquoted.{strip_cr}
use coseva.Parse.Plain.{
  borrowed_scan_end, holds_escape, decline, commit_plain, end_plain, plain_byte, plain_loop,
  try_parse_borrowed_plain, ends_in_lf, ends_in_crlf, search_end, validate_crlf,
}
use coseva.Parse.Outcome.{Ends, Ends->>=, Keeps, Keeps->>=, Ends-slice_of}
use coseva.Parse.Sound.{IsSound}
use coseva.Parse.Sound.Push.{
  Pushed, push_span-Ends, check_record_limit-Ends, move-IsSound, reject-Ends,
}

module _ (s : Settings) (input : Bytes) where
  -- What the kernel leaves: the record read, or the state at its start.
  abbrev pub Tried : ℕ → Engine → Bool → Type 0
  Tried record_start e true =
      IsSound s input e × ((record_start < e.location) ⊎ (e.location ≡ length input))
  Tried record_start e false = IsSound s input e × (e.location ≡ record_start)

  decline-Ends :
      (record_start : ℕ) (e : Engine)
      → IsSound s input e
      → e.location ≡ record_start
      → Ends (Tried record_start) (decline s input e)
  decline-Ends record_start e sound here = (
    record { located = sound.located; sized = sound.sized; counted = omega arith; fitting = tt },
    here,
  )

  settle-Ends :
      (record_start next : ℕ) (e : Engine) (ends : Bool)
      → IsSound s input e
      → record_start ≤ next
      → next ≤ length input
      → (record_start < next) ⊎ (next ≡ length input)
      → Ends (Tried record_start) (
          (do
            set_location next
            if ends then note_terminated else clear_terminated
            check_record_limit s input record_start next
            return true)
            e)
  settle-Ends record_start next e true sound h k further =
      let e' : Engine = record e { location = next; terminated = true } in
      Keeps->>= _ (Tried record_start) (check_record_limit s input record_start next) (return true)
        e' (check_record_limit-Ends s input record_start next e' h)
        (λ within. (move-IsSound s input e next true k sound, further))
  settle-Ends record_start next e false sound h k further =
      let e' : Engine = record e { location = next; terminated = false } in
      Keeps->>= _ (Tried record_start) (check_record_limit s input record_start next) (return true)
        e' (check_record_limit-Ends s input record_start next e' h)
        (λ within. (move-IsSound s input e next false k sound, further))

  commit_plain-Ends :
      (record_start field_start field_end at next : ℕ) (ends : Bool) (e : Engine)
      → IsSound s input e
      → record_start ≤ next
      → next ≤ length input
      → (record_start < next) ⊎ (next ≡ length input)
      → Ends
          (Tried record_start)
          (commit_plain s input record_start field_start field_end at next ends e)
  unfolding commit_plain
  commit_plain-Ends record_start field_start field_end at next ends e sound h k further =
      Ends->>= (Pushed s input e) (Tried record_start)
        (push_span s input Source.in_input field_start field_end at false) _ e
        (push_span-Ends s input Source.in_input field_start field_end at false e sound)
        (λ e' done pushed. settle-Ends record_start next e' ends pushed.0 h k further)

  end_plain-Ends :
      (record_start field_start : ℕ) (e : Engine)
      → IsSound s input e
      → e.location ≡ record_start
      → Ends
          (Tried record_start)
          (end_plain s input record_start field_start (borrowed_scan_end s input record_start) e)
  unfolding end_plain
  end_plain-Ends record_start field_start e sound here =
      let end = borrowed_scan_end s input record_start in
      if_either (λ (m : Parser Bool). Ends (Tried record_start) (m e)) (ltb end (length input)) _ _
        (λ long.
          reject-Ends s input (Tried record_start)
            (ErrorKind.record_too_large s.limits.max_record_bytes) end e)
        (λ whole.
          let at_end : end ≡ length input = ground arith in
          if_either (λ (m : Parser Bool). Ends (Tried record_start) (m e))
            (holds_escape s input record_start end) _ _
            (λ escaped. decline-Ends record_start e sound here)
            (λ plain.
              commit_plain-Ends record_start field_start end end end false e sound
                (omega (arith, at_end, sound.located, here)) (omega (arith, at_end)) (inr at_end)))

  plain_byte-Ends :
      (record_start field_start at byte : ℕ) (next : ℕ → Parser Bool) (e : Engine)
      → IsSound s input e
      → e.location ≡ record_start
      → record_start ≤ at
      → at < length input
      → ((start : ℕ) (e' : Engine)
          → IsSound s input e'
          → e'.location ≡ record_start
          → Ends (Tried record_start) (next start e'))
      → Ends (Tried record_start) (plain_byte s input record_start field_start at byte next e)
  unfolding plain_byte
  plain_byte-Ends record_start field_start at byte next e sound here from inside more =
      let Q = λ (m : Parser Bool). Ends (Tried record_start) (m e) in
      if_either Q (byte == s.dialect.delimiter) _ _
        (λ separates.
          Ends->>= (Pushed s input e) (Tried record_start)
            (push_span s input Source.in_input field_start at at false) _ e
            (push_span-Ends s input Source.in_input field_start at at false e sound)
            (λ e' done pushed. more (at + 1) e' pushed.0 (omega (arith, here, pushed.1))))
        (λ other.
          if_either Q
            (byte == s.dialect.quote
              && quoting_enabled s.syntax
              && (at == field_start || not (permits_unquoted_quotes s.syntax)))
            _ _ (λ quote. decline-Ends record_start e sound here)
            (λ unquoted.
              if_either Q (byte == terminator s.dialect.record_ending) _ _
                (λ ends.
                  if_either Q (holds_escape s input record_start at) _ _
                    (λ escaped. decline-Ends record_start e sound here)
                    (λ plain.
                      commit_plain-Ends record_start field_start
                        (strip_cr input (strips_cr s) field_start at) at (at + 1) true e sound
                        (omega arith) (omega arith) (inl (omega arith))))
                (λ content. more field_start e sound here)))

  structural-in_range :
      (xs : Bytes) (i : ℕ)
      → find3 s.dialect.delimiter s.dialect.quote (terminator s.dialect.record_ending) xs ≡ some i
      → i < length xs
  unfolding find3 find
  structural-in_range xs i h =
      position-lt-length
        (contains (s.dialect.delimiter ∷ s.dialect.quote ∷ terminator s.dialect.record_ending ∷ []))
        xs i h

  plain_loop-Ends :
      (fuel record_start field_start cursor : ℕ) (e : Engine)
      → IsSound s input e
      → e.location ≡ record_start
      → record_start ≤ cursor
      → cursor ≤ length input
      → length input < cursor + fuel
      → Ends (Tried record_start) (
          plain_loop s input fuel record_start
            (borrowed_scan_end s input record_start)
            field_start
            cursor
            e)
  unfolding plain_loop
  plain_loop-Ends zero record_start field_start cursor e sound here from inner enough =
      absurd (omega arith)
  plain_loop-Ends (suc fuel) record_start field_start cursor e sound here from inner enough =
      let end = borrowed_scan_end s input record_start in
      let remaining = slice input cursor end in
      let search =
        find3 s.dialect.delimiter s.dialect.quote (terminator s.dialect.record_ending) remaining in
      elim (Option-cases search) [
        | inl missing ↦
            rw (missing, plain_loop) (end_plain-Ends record_start field_start e sound here)
        | inr (i, found) ↦
            let inside : cursor + i < length input = omega (
              arith,
              structural-in_range remaining i found,
              length-take (end - cursor) (drop cursor input),
              length-drop cursor input,
            ) in
            let byte = get_elem?-in_range input (cursor + i) inside in
            rw (found, plain_loop)
              (rw (byte.1, plain_loop)
                (plain_byte-Ends record_start field_start (cursor + i) byte.0 _ e sound here
                  (omega arith) inside
                  (λ start e' sound' here'.
                    plain_loop-Ends fuel record_start start (cursor + i + 1) e' sound' here'
                      (omega arith) (omega arith) (omega arith))))
      ]

  pub try_parse_borrowed_plain-Ends :
      (e : Engine)
      → IsSound s input e
      → Ends (Tried e.location) (try_parse_borrowed_plain s input e.location e)
  unfolding try_parse_borrowed_plain
  try_parse_borrowed_plain-Ends e sound =
      plain_loop-Ends (length input + 1) e.location e.location e.location e sound refl (omega arith)
        sound.located (omega arith)

  search_end-bounds :
      (record_start end : ℕ)
      → record_start ≤ end
      → end ≤ length input
      → (record_start ≤ search_end s input record_start end)
        × (search_end s input record_start end ≤ length input)
  search_end-bounds record_start end h k =
      let P = λ (n : ℕ). (record_start ≤ n) × (n ≤ length input) in
      if_either P (ends_in_crlf s input record_start end) _ _ (λ both. (ground arith, ground arith))
        (λ other.
          if_either P (ends_in_lf s input record_start end) _ _
            (λ line. (ground arith, ground arith)) (λ neither. (h, k)))

  pub validate_crlf-Ends :
      (record_start : ℕ) (e : Engine)
      → record_start ≤ e.location
      → e.location ≤ length input
      → Ends (Keeps e (Unit {0})) (validate_crlf s input record_start e)
  unfolding validate_crlf
  validate_crlf-Ends record_start e h k =
      let Q = Keeps {0} {A = Unit {0}} e (Unit {0}) in
      let bounds = search_end-bounds record_start e.location h k in
      let searched = slice input record_start (search_end s input record_start e.location) in
      Ends-slice_of Q input record_start (search_end s input record_start e.location) _ e bounds.0
        bounds.1
        (elim (Option-cases (find1 b'\r' searched)) [
          | inr (offset, stray) ↦ rw (stray) tt
          | inl clean ↦ rw (clean) (
              if_either (Ends Q)
                (ends_in_lf s input record_start e.location
                  && not (ends_in_crlf s input record_start e.location))
                _ _ (λ bare. tt) (λ well. (refl, tt)))
        ])
