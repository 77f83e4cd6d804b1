-- ===== src/Parse/Sound/Dispatch.antt =====
-- A record read by the kernel or by the loop over its fields: either ends, and keeps the invariant.
use coseva.Prelude.{
  ℕ, ◌≤◌, ◌<◌, Bool, true, false, ◌≡◌, refl, ◌⊎◌, inl, inr, Bytes, length, get_elem?-in_range,
  arith, subst, if◌then◌else◌,
}
use coseva.Config.Options.{is_crlf}
use coseva.Parse.Engine.{Settings, Engine, ◌>>=◌, return}
use coseva.Parse.Push.{mark_null_spans}
use coseva.Parse.Plain.{
  plain_record_candidate, needs_record_pass, try_parse_borrowed_plain, validate_crlf,
  finish_plain_record,
}
use coseva.Parse.Fields.{finish_plain, after_kernel, parse_record, parse_record_fields}
use coseva.Parse.Outcome.{Ends, Ends->>=, Ends-weaken, Ends-if, Keeps, Keeps->>=}
use coseva.Parse.Sound.{IsSound, IsScannable}
use coseva.Parse.Sound.Plain.{Tried, try_parse_borrowed_plain-Ends, validate_crlf-Ends}
use coseva.Parse.Sound.Record.{
  Consumes, Marked, mark_null_spans-Ends, counted-Ends, parse_record_fields-Ends,
}

module _ (s : Settings) (input : Bytes) where
  finish_plain_record-Ends :
      (record_start : ℕ) (header : Bool) (e : Engine)
      → IsSound s input e
      → record_start ≤ e.location
      → Ends (Marked s input e) (finish_plain_record s input record_start header e)
  unfolding finish_plain_record
  finish_plain_record-Ends record_start header e sound h =
      Keeps->>= (Unit {0}) (Marked s input e)
        (if is_crlf s.dialect.record_ending then validate_crlf s input record_start else return tt)
        (mark_null_spans s input header) e
        (Ends-if (Keeps {0} {A = Unit {0}} e (Unit {0})) (is_crlf s.dialect.record_ending)
          (validate_crlf s input record_start) (return tt) e
          (λ checks. validate_crlf-Ends s input record_start e h sound.located)
          (λ keeps. (refl, tt)))
        (λ within. mark_null_spans-Ends s input e header sound)

  finish_plain-Ends :
      (start e : Engine) (header : Bool)
      → IsSound s input e
      → start.location ≤ e.location
      → (start.location < e.location) ⊎ (e.location ≡ length input)
      → Ends (Consumes s input start) (finish_plain s input start.location header e)
  unfolding finish_plain
  finish_plain-Ends start e header sound h further =
      Ends->>= (Marked s input e) (Consumes s input start)
        (if needs_record_pass s.dialect s.nulls
          then finish_plain_record s input start.location header
          else return tt)
        _ e
        (Ends-if (Marked s input e) (needs_record_pass s.dialect s.nulls)
          (finish_plain_record s input start.location header) (return tt) e
          (λ passes. finish_plain_record-Ends start.location header e sound h)
          (λ keeps. (sound, refl)))
        (λ e' done marked. counted-Ends s input start e' marked.0 (rw (marked.1) further))

  after_kernel-Ends :
      (start e : Engine) (header read : Bool)
      → IsScannable s input
      → start.location < length input
      → Tried s input start.location e read
      → Ends (Consumes s input start) (after_kernel s input start.location header read e)
  unfolding after_kernel
  after_kernel-Ends start e header true scannable h (sound, further) =
      let behind : start.location ≤ e.location = elim further [
        | inl later ↦ omega arith
        | inr at_end ↦ omega (arith, at_end)
      ] in
      finish_plain-Ends start e header sound behind further
  after_kernel-Ends start e header false scannable h (sound, here) =
      Ends-weaken (Consumes s input e) (Consumes s input start)
        (parse_record_fields s input start.location header e)
        (subst (λ n. Ends (Consumes s input e) (parse_record_fields s input n header e)) here
          (parse_record_fields-Ends s input header e scannable sound))
        (λ e' done read.
          (read.0, elim read.1 [ inl later ↦ inl (omega (arith, here)) | inr at_end ↦ inr at_end ]))

  -- A record that is read ends, with an error or in a sound state further on.
  pub parse_record-Ends :
      (header : Bool) (e : Engine)
      → IsScannable s input
      → IsSound s input e
      → e.location < length input
      → Ends (Consumes s input e) (parse_record s input e.location header e)
  unfolding parse_record
  parse_record-Ends header e scannable sound h =
      let first = get_elem?-in_range input e.location h in
      rw (first.1, ◌>>=◌)
        (Ends->>= (Tried s input e.location) (Consumes s input e)
          (if plain_record_candidate s first.0
            then try_parse_borrowed_plain s input e.location
            else return false)
          (after_kernel s input e.location header) e
          (Ends-if (Tried s input e.location) (plain_record_candidate s first.0)
            (try_parse_borrowed_plain s input e.location) (return false) e
            (λ plain. try_parse_borrowed_plain-Ends s input e sound) (λ other. (sound, refl)))
          (λ e' read tried. after_kernel-Ends e e' header read scannable h tried))
