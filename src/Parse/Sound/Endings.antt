-- ===== src/Parse/Sound/Endings.antt =====
-- The search for the end of a record ends, behind its start and within the input.
use coseva.Prelude.{
  ℕ, zero, suc, ◌+◌, ◌≤◌, ◌<◌, [], ◌∷◌, drop, true, Option, none, some, ◌≡◌, ◌≢◌, refl, inl, inr,
  Bytes, length, length-drop, Bool-cases, Option-cases, arith, ◌==◌, ◌&&◌, and_left, and_right, ltb,
  if◌then◌else◌, if_either,
}
use coseva.Search.{position-lt-length, contains, find1, find}
use coseva.Config.Tail.{Tail, confirms, width, max_tail}
use coseva.Config.Tail.Laws.{confirms-len}
use coseva.Config.Options.{RecordEnding, newline, crlf, ending_byte, terminator}
use coseva.Config.Dialect.{Dialect}
use coseva.Config.Dialect.Sound.{IsUsable, HasEndingByte}
use coseva.Parse.Engine.{byte_is}
use coseva.Parse.Framing.{
  record_ending_width, confirmed, find_ending_loop, find_record_ending, crlf_at,
}
use coseva.Parse.Outcome.{byte_is-in_range}

unspelled_len :
    (r : RecordEnding) (t : Tail)
    → (t.len ≢ 0 → HasEndingByte r)
    → ((b : ℕ) → r ≢ ending_byte b)
    → t.len ≡ 0
unspelled_len r t spelled plain = elim (Bool-cases (t.len == 0)) [
  | inl empty ↦ ground arith
  | inr longer ↦ let (byte, is_byte) = spelled (λ e. ground arith) in absurd (plain byte is_byte)
]

confirmed-in_range :
    (r : RecordEnding) (t : Tail) (input : Bytes) (start at : ℕ)
    → t.len ≤ max_tail
    → (t.len ≢ 0 → HasEndingByte r)
    → at < length input
    → confirmed r t input start at ≡ true
    → at + width t ≤ length input
unfolding confirmed
confirmed-in_range newline t input start at h spelled inside c =
    omega (arith, unspelled_len newline t spelled (λ b e. cc))
confirmed-in_range crlf t input start at h spelled inside c =
    omega (arith, unspelled_len crlf t spelled (λ b e. cc))
confirmed-in_range (ending_byte byte) t input start at h spelled inside c =
    omega (arith, confirms-len t (drop (at + 1) input) h c, length-drop (at + 1) input)

crlf_at-in_range : (input : Bytes) (at : ℕ) → crlf_at input at ≡ true → at + 2 ≤ length input
crlf_at-in_range input at h = omega (
  arith,
  byte_is-in_range input (at + 1) b'\n'
      (and_right (byte_is input at b'\r') (byte_is input (at + 1) b'\n') h),
)

-- a step that takes a byte at least, and stays within the input
abbrev pub IsStep : Bytes → ℕ → Option ℕ → Type 0
IsStep input at none = Unit {0}
IsStep input at (some step) = (0 < step) × (at + step ≤ length input)

-- A record ending takes a byte at least, and lies within the input.
pub record_ending_width-IsStep :
    (r : RecordEnding) (t : Tail) (input : Bytes) (at : ℕ)
    → t.len ≤ max_tail
    → IsStep input at (record_ending_width r t input at)
unfolding record_ending_width
record_ending_width-IsStep newline t input at h =
    if_either (IsStep input at) (byte_is input at b'\n') _ _
      (λ line. (omega arith, omega (arith, byte_is-in_range input at b'\n' line)))
      (λ other.
        if_either (IsStep input at) (crlf_at input at) _ _
          (λ both. (omega arith, crlf_at-in_range input at both)) (λ neither. tt))
record_ending_width-IsStep crlf t input at h =
    if_either (IsStep input at) (crlf_at input at) _ _
      (λ both. (omega arith, crlf_at-in_range input at both)) (λ neither. tt)
record_ending_width-IsStep (ending_byte byte) t input at h =
    let rest = drop (at + 1) input in
    if_either (IsStep input at) (byte_is input at byte && confirms t rest) _ _
      (λ ends.
        let inside =
          byte_is-in_range input at byte
            (and_left (byte_is input at byte) (confirms t rest) ends) in
        let fits =
          confirms-len t rest h (and_right (byte_is input at byte) (confirms t rest) ends) in
        (omega arith, omega (arith, length-drop (at + 1) input)))
      (λ neither. tt)

find1-in_range : (b : ℕ) (xs : Bytes) (i : ℕ) → find1 b xs ≡ some i → i < length xs
unfolding find1 find
find1-in_range b xs i h = position-lt-length (contains (b ∷ [])) xs i h

-- where a search that began at `start` may end
abbrev pub IsEnding : Bytes → ℕ → Option ℕ → Type 0
IsEnding input start none = Unit {0}
IsEnding input start (some end) = (start < end) × (end ≤ length input)

module _ (d : Dialect) (usable : IsUsable d) (input : Bytes) (start : ℕ) where
  find_ending_loop-ends :
      (fuel search_start : ℕ)
      → start ≤ search_start
      → search_start ≤ length input
      → length input < search_start + fuel
      → (r : Option ℕ) × (find_ending_loop fuel d input start search_start ≡ some r)
        × IsEnding input start r
  unfolding find_ending_loop
  find_ending_loop-ends zero search_start from inner enough = absurd (omega arith)
  find_ending_loop-ends (suc fuel) search_start from inner enough =
      let remaining = drop search_start input in
      elim (Bool-cases (ltb (length input) search_start)) [
        | inl past ↦ (none, rw (past, if◌then◌else◌) refl, tt)
        | inr still ↦ elim (Option-cases (find1 (terminator d.record_ending) remaining)) [
          | inl missing ↦ (none, rw (still, if◌then◌else◌) (rw missing refl), tt)
          | inr (i, found) ↦
              let at = search_start + i in
              let inside : at < length input = omega (
                arith,
                length-drop search_start input,
                find1-in_range (terminator d.record_ending) remaining i found,
              ) in
              elim (Bool-cases (confirmed d.record_ending d.ending_tail input start at)) [
                | inl ends ↦ (
                  some (at + width d.ending_tail),
                  rw (still, if◌then◌else◌) (rw found (rw ends refl)),
                  (
                    omega arith,
                    confirmed-in_range d.record_ending d.ending_tail input start at
                        usable.ending_tail_clear.0 usable.ending_spelled inside ends,
                  ),
                )
                | inr passes ↦
                    let rest =
                      find_ending_loop-ends fuel (at + 1) (omega arith) (omega arith)
                        (omega arith) in
                    (rest.0, rw (still, if◌then◌else◌) (rw found (rw passes rest.1)), rest.2)
              ]
        ]
      ]

  pub find_record_ending-ends :
      start ≤ length input
      → (r : Option ℕ) × (find_record_ending d input start ≡ some r) × IsEnding input start r
  unfolding find_record_ending
  find_record_ending-ends h =
      find_ending_loop-ends (length input + 1) start (omega arith) h (omega arith)
