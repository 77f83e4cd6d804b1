-- ===== src/Parse/Sound/Stops.antt =====
-- The loop of the general scan ends, and keeps the invariant.
use coseva.Prelude.{
  ℕ, zero, suc, ◌+◌, ◌-◌, ◌≤◌, ◌<◌, [], ◌∷◌, drop, Bool, true, false, Option, none, some, ◌≡◌, refl,
  inl, inr, Bytes, length, get_elem?, get_elem?-in_range, get_elem?-some, length-drop, Bool-cases,
  Option-cases, arith, ◌==◌, ◌&&◌, ltb, not, if◌then◌else◌, if_either, holds,
}
use coseva.Search.{position-lt-length, contains, find1, find2, find3, find4, find}
use coseva.Config.Tail.{Tail, confirms, width}
use coseva.Config.Tail.Laws.{confirms-len}
use coseva.Config.Options.{terminator, is_crlf, unquoted_byte}
use coseva.Config.Dialect.Sound.{IsUsable}
use coseva.Parse.Spans.{slice}
use coseva.Parse.Engine.{Settings, Engine, Parser, scan_end, byte_is, allow_quote_search}
use coseva.Parse.Unquoted.{strip_cr}
use coseva.Parse.General.{
  resume_after_unquoted_escape, earliest, bare_lf, find_stop, extra_byte, with_extra, also_byte,
  find_stop_byte, push_general_unquoted_span, stop_general, Stop, passes, separates, faults,
  general_stop, general_arm, general_loop, parse_general_unquoted_field,
}
use coseva.Parse.Outcome.{Ends, Ends->>=, byte_is-in_range}
use coseva.Parse.Sound.{IsSound, IsScannable}
use coseva.Parse.Sound.Push.{Pushed, reject-Ends}
use coseva.Parse.Sound.Unquoted.{Advances, step_over-Ends}
use coseva.Parse.Sound.Loop.{slice_index, end_bounds}
use coseva.Parse.Sound.General.{push_general-Ends, end_general-Ends}

find_stop-in_range :
    (s : Settings) (extra quoted : Bool) (xs : Bytes) (i : ℕ)
    → find_stop s extra quoted xs ≡ some i
    → i < length xs
unfolding find2 find3 find4 find
find_stop-in_range s true true xs i h =
    position-lt-length
      (contains (
        s.dialect.delimiter
        ∷ s.dialect.quote
        ∷ terminator s.dialect.record_ending
        ∷ extra_byte s
        ∷ []))
      xs i h
find_stop-in_range s true false xs i h =
    position-lt-length
      (contains (s.dialect.delimiter ∷ terminator s.dialect.record_ending ∷ extra_byte s ∷ [])) xs i
      h
find_stop-in_range s false true xs i h =
    position-lt-length
      (contains (s.dialect.delimiter ∷ s.dialect.quote ∷ terminator s.dialect.record_ending ∷ []))
      xs i h
find_stop-in_range s false false xs i h =
    position-lt-length (contains (s.dialect.delimiter ∷ terminator s.dialect.record_ending ∷ [])) xs
      i h

earliest-in_range :
    (a b : Option ℕ) (n i : ℕ)
    → ((j : ℕ) → a ≡ some j → j < n)
    → ((j : ℕ) → b ≡ some j → j < n)
    → earliest a b ≡ some i
    → i < n
unfolding earliest
earliest-in_range (some j) (some k) n i h g e = ground (arith, h j refl, g k refl)
earliest-in_range (some j) none n i h g e = ground (arith, h j refl)
earliest-in_range none (some k) n i h g e = ground (arith, g k refl)
earliest-in_range none none n i h g e = cc

find_stop_byte-in_range :
    (s : Settings) (xs : Bytes) (i : ℕ) → find_stop_byte s xs ≡ some i → i < length xs
unfolding find_stop_byte
find_stop_byte-in_range s xs i h =
    let found = find_stop s (with_extra s) (allow_quote_search s) xs in
    let inside : (j : ℕ) → found ≡ some j → j < length xs =
      λ j. find_stop-in_range s (with_extra s) (allow_quote_search s) xs j in
    elim (Option-cases (also_byte s)) [
      | inl alone ↦ inside i (rw (alone, find_stop_byte) at h)
      | inr (escape, also) ↦
          earliest-in_range found (find1 escape xs) (length xs) i inside
            (λ j. unfold find1 in unfold find in position-lt-length (contains (escape ∷ [])) xs j)
            (rw (also, find_stop_byte) at h)
    ]

-- What a byte may be to the loop, as far as places go.
abbrev IsPlaced : ℕ → ℕ → ℕ → Stop → Type 0
IsPlaced size field_start at (passes next) = (at < next) × (next ≤ size)
IsPlaced size field_start at (faults kind) = Unit {0}
IsPlaced size field_start at (separates field_end next ends) =
    (field_start ≤ field_end) × (field_end ≤ size) × (at < next) × (next ≤ size)

resume-in_range :
    (input : Bytes) (at : ℕ)
    → at < length input
    → (at < resume_after_unquoted_escape input at)
      × (resume_after_unquoted_escape input at ≤ length input)
unfolding resume_after_unquoted_escape
resume-in_range input at h = elim (Option-cases (get_elem? input (at + 1))) [
  | inl last ↦ rw (last, resume_after_unquoted_escape) (omega arith, omega arith)
  | inr (next, found) ↦
      rw (found, resume_after_unquoted_escape)
        (omega arith, omega (arith, get_elem?-some input (at + 1) next found))
]

strip_cr-bounds :
    (input : Bytes) (strips : Bool) (field_start at : ℕ)
    → field_start ≤ at
    → (field_start ≤ strip_cr input strips field_start at)
      × (strip_cr input strips field_start at ≤ at)
strip_cr-bounds input strips field_start at h =
    if_either (λ t. (field_start ≤ t) × (t ≤ at))
      (strips && ltb field_start at && byte_is input (at - 1) b'\r') (at - 1) at
      (λ stripped. (ground arith, omega arith)) (λ kept. (h, omega arith))

module _ (s : Settings) (input : Bytes) where
  -- a separator of several bytes, or a byte to scan past where its tail is missing
  tail-IsPlaced :
      (field_start field_end at : ℕ) (tail : Tail) (ends : Bool)
      → tail.len ≤ 3
      → field_start ≤ field_end
      → field_end ≤ at
      → at < length input
      → IsPlaced (length input) field_start at (
          if not (confirms tail (drop (at + 1) input))
          then passes (at + 1)
          else separates field_end (at + width tail) ends)
  tail-IsPlaced field_start field_end at tail ends usable h k l =
      let rest = drop (at + 1) input in
      if_either (IsPlaced (length input) field_start at) (not (confirms tail rest)) _ _
        (λ missing. (omega arith, omega arith))
        (λ found.
          let fits : tail.len ≤ length rest = confirms-len tail rest usable (ground arith) in
          (h, omega arith, omega arith, omega (arith, fits, length-drop (at + 1) input)))

  general_stop-IsPlaced :
      (field_start at byte : ℕ)
      → IsUsable s.dialect
      → field_start ≤ at
      → at < length input
      → IsPlaced (length input) field_start at (general_stop s input field_start at byte)
  unfolding general_stop
  general_stop-IsPlaced field_start at byte usable h k =
      let d = s.dialect in
      let P = IsPlaced (length input) field_start at in
      let strip = strip_cr-bounds input (bare_lf d.record_ending) field_start at h in
      if_either P (holds (unquoted_byte d.escape) byte) _ _ (λ escape. resume-in_range input at k)
        (λ a.
          if_either P (allow_quote_search s && byte == d.quote) _ _ (λ quote. tt)
            (λ b.
              if_either P (is_crlf d.record_ending && byte == b'\r') _ _
                (λ cr.
                  if_either P (byte_is input (at + 1) b'\n') _ _
                    (λ lf. (
                      h,
                      omega arith,
                      omega arith,
                      omega (arith, byte_is-in_range input (at + 1) b'\n' lf),
                    ))
                    (λ other. tt))
                (λ c.
                  if_either P (byte == terminator d.record_ending) _ _
                    (λ ending.
                      if_either P (is_crlf d.record_ending) _ _ (λ bare. tt)
                        (λ single.
                          tail-IsPlaced field_start
                            (strip_cr input (bare_lf d.record_ending) field_start at) at
                            d.ending_tail true usable.ending_tail_clear.0 strip.0 strip.1 k))
                    (λ delimiter.
                      tail-IsPlaced field_start at at d.delimiter_tail false
                        usable.delimiter_tail_clear.0 h (omega arith) k))))

  general_arm-Ends :
      (e : Engine) (record_start at : ℕ) (header : Bool) (go : ℕ → Parser Bool) (stop : Stop)
      → IsSound s input e
      → record_start ≤ e.location
      → e.location ≤ at
      → IsPlaced (length input) e.location at stop
      → ((next : ℕ) → at < next → next ≤ length input → Ends (Advances s input e) (go next e))
      → Ends (Advances s input e) (general_arm s input record_start e.location at header go stop e)
  unfolding general_arm stop_general
  general_arm-Ends e record_start at header go (passes next) sound h k placed more =
      more next placed.0 placed.1
  general_arm-Ends e record_start at header go (faults kind) sound h k placed more =
      reject-Ends s input (Advances s input e) kind at e
  general_arm-Ends e record_start at header go (separates field_end next ends) sound h k placed
        more =
      Ends->>= (Pushed s input e) (Advances s input e)
        (push_general_unquoted_span s input e.location field_end at header) _ e
        (push_general-Ends s input e e.location field_end at header sound placed.0 placed.1)
        (λ e' done pushed.
          step_over-Ends s input e e' record_start next ends pushed.0 (omega (arith, placed.2))
            placed.3 (omega (arith, placed.2)))

  general_loop-Ends :
      (fuel record_start cursor : ℕ) (header : Bool) (e : Engine)
      → IsScannable s input
      → IsSound s input e
      → record_start ≤ e.location
      → e.location ≤ cursor
      → cursor ≤ length input
      → length input < cursor + fuel
      → Ends
          (Advances s input e)
          (general_loop s input fuel record_start e.location cursor header e)
  unfolding general_loop
  general_loop-Ends zero record_start cursor header e scannable sound h k l m = absurd (omega arith)
  general_loop-Ends (suc fuel) record_start cursor header e scannable sound h k l m =
      let end = scan_end s input record_start e.location in
      let bounds = end_bounds s input record_start e.location h sound.located in
      let remaining = slice input cursor end in
      elim (Bool-cases (ltb cursor end)) [
        | inr past ↦
            rw (past, general_loop) (end_general-Ends s input record_start e header sound h)
        | inl inside ↦ elim (Option-cases (find_stop_byte s remaining)) [
          | inl nothing ↦
              rw (inside, general_loop)
                (rw (nothing) (
                  general_loop-Ends fuel record_start end header e scannable sound h (ground arith)
                    bounds.1 (ground arith)))
          | inr (i, found) ↦
              let at = cursor + i in
              let here =
                slice_index s input cursor end i (ground arith) bounds.1
                  (find_stop_byte-in_range s remaining i found) in
              let byte = get_elem?-in_range input at here.1 in
              rw (inside, general_loop)
                (rw (found) (
                  rw (byte.1) (
                    general_arm-Ends e record_start at header
                      (λ next. general_loop s input fuel record_start e.location next header)
                      (general_stop s input e.location at byte.0) sound h (omega arith)
                      (general_stop-IsPlaced e.location at byte.0 scannable.usable (omega arith)
                        here.1)
                      (λ next later within.
                        general_loop-Ends fuel record_start next header e scannable sound h
                          (omega arith) within (omega arith)))))
        ]
      ]

  pub parse_general-Ends :
      (record_start : ℕ) (header : Bool) (e : Engine)
      → IsScannable s input
      → IsSound s input e
      → record_start ≤ e.location
      → Ends (Advances s input e) (parse_general_unquoted_field s input record_start header e)
  unfolding parse_general_unquoted_field
  parse_general-Ends record_start header e scannable sound h =
      general_loop-Ends (length input + 2) record_start e.location header e scannable sound h
        (omega arith) sound.located (omega arith)
