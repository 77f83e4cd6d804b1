-- ===== src/Parse/Push/Laws.antt =====
-- What copying a piece of a field leaves.
use coseva.Prelude.{
  ℕ, ◌≤◌, Bool, true, false, ◌++◌, ◌≡◌, refl, ap, Bytes, length, append_assoc, arith,
}
use coseva.Parse.Spans.{slice}
use coseva.Parse.Engine.{Engine, parsed, ◌>>=◌}
use coseva.Parse.Push.{copy_segment}
use coseva.Parse.Outcome.{slice_of-in_range}

-- the bytes that `copy_segment` adds to the scratch
abbrev pub copied_bytes : Bytes → Bool → ℕ → ℕ → ℕ → Bytes
copied_bytes input true content_start start end = slice input start end
copied_bytes input false content_start start end =
    slice input content_start start ++ slice input start end

pub copy_segment-parsed :
    (input : Bytes) (copied : Bool) (content_start start end : ℕ) (e : Engine)
    → content_start ≤ start
    → start ≤ end
    → end ≤ length input
    → copy_segment input copied content_start start end e
      ≡ parsed
          (record e { scratch = e.scratch ++ copied_bytes input copied content_start start end })
          true
unfolding copy_segment
copy_segment-parsed input true content_start start end e h k l =
    rw (slice_of-in_range input start end e k l, ◌>>=◌) refl
copy_segment-parsed input false content_start start end e h k l =
    let prefix = slice input content_start start in
    let e' : Engine = record e { scratch = e.scratch ++ prefix } in
    rw (slice_of-in_range input content_start start e h (omega arith), ◌>>=◌)
      (rw (slice_of-in_range input start end e' k l, ◌>>=◌)
        (ap (λ t. parsed (record e { scratch = t }) true)
          (append_assoc e.scratch prefix (slice input start end))))
