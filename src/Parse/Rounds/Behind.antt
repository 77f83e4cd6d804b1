-- ===== src/Parse/Rounds/Behind.antt =====
-- What stands behind a quoted field is read back: a separator, or the ending of the record.
use coseva.Prelude.{
  ℕ, ◌+◌, ◌≤◌, true, false, [], ◌∷◌, ◌++◌, some, ◌≡◌, ◌≢◌, refl, sym, ap, ap₂, subst, ◌∙◌, Bytes,
  length, drop, get_elem?, arith, ◌==◌, if◌then◌else◌, ==_refl, length-append, Bool-cases, inl, inr,
}
use coseva.Config.Tail.{Tail, as_slice, confirms, width}
use coseva.Config.Tail.Laws.{confirms_iff, length-as_slice}
use coseva.Config.Options.{
  RecordEnding, newline, crlf, ending_byte, terminator, is_crlf, is_newline,
  permits_trailing_whitespace,
}
use coseva.Config.Dialect.Sound.{IsUsable}
use coseva.Emit.Record.Always.{delimiter_bytes, ending_bytes, empty-as_slice}
use coseva.Parse.Engine.{Settings, Engine, parsed, ◌>>=◌, byte_is}
use coseva.Parse.Quoted.{
  skip_post_quote_whitespace, end_quoted, follow_quoted, finish_quoted_field_runtime,
}
use coseva.Parse.Place.{At, At-append, At-head, At-length}
use coseva.Parse.Rounds.{check_record_limit-passes}

pub byte_found :
    (input : Bytes) (at byte : ℕ) → get_elem? input at ≡ some byte → byte_is input at byte ≡ true
byte_found input at byte found = ground arith

module _ (s : Settings) (input : Bytes) (usable : IsUsable s.dialect)
    (exact : permits_trailing_whitespace s.syntax ≡ false) where
  -- With nothing to skip, the byte behind the quote decides.
  finish-At :
      (record_start at next : ℕ) (xs : Bytes) (e : Engine)
      → At input at (next ∷ xs)
      → finish_quoted_field_runtime s input record_start at e
        ≡ follow_quoted s input record_start at next e
  unfolding finish_quoted_field_runtime skip_post_quote_whitespace
  finish-At record_start at next xs e p =
      rw (exact, finish_quoted_field_runtime) (rw (At-head next xs p) refl)

  tail_confirmed :
      (at lead : ℕ) (t : Tail) (xs : Bytes)
      → At input at (lead ∷ (as_slice t ++ xs))
      → confirms t (drop (at + 1) input) ≡ true
  tail_confirmed at lead t xs p =
      let behind = At-append (lead ∷ []) (as_slice t ++ xs) p in
      (confirms_iff t (drop (at + 1) input)).1 (xs, behind.behind)

  pub finish-delimiter :
      (record_start at : ℕ) (xs : Bytes) (e : Engine)
      → At input at (delimiter_bytes s.dialect ++ xs)
      → finish_quoted_field_runtime s input record_start at e
        ≡ parsed (record e { location = at + length (delimiter_bytes s.dialect) }) false
  unfolding follow_quoted
  finish-delimiter record_start at xs e p =
      let d = s.dialect in
      let found = tail_confirmed at d.delimiter d.delimiter_tail xs p in
      let n : width d.delimiter_tail ≡ length (delimiter_bytes d) =
        omega (arith, length-as_slice d.delimiter_tail usable.delimiter_tail_clear.0) in
      finish-At record_start at d.delimiter (as_slice d.delimiter_tail ++ xs) e p
      ∙ rw (==_refl d.delimiter, follow_quoted)
          (rw (found) (ap (λ k. parsed (record e { location = at + k }) false) n))

  end_quoted-parsed :
      (record_start at : ℕ) (e : Engine)
      → record_start ≤ at
      → at ≤ record_start + s.limits.max_record_bytes
      → end_quoted s input record_start at e
        ≡ parsed (record e { location = at; terminated = true }) true
  unfolding end_quoted
  end_quoted-parsed record_start at e h k =
      let e' : Engine = record e { location = at; terminated = true } in
      rw (check_record_limit-passes s input record_start at e' h k, ◌>>=◌) refl

  -- One byte, or several, that do not begin with a carriage return of their own.
  ending_single :
      (record_start at : ℕ) (xs : Bytes) (e : Engine)
      → is_crlf s.dialect.record_ending ≡ false
      → record_start ≤ at
      → At input at ((terminator s.dialect.record_ending ∷ as_slice s.dialect.ending_tail) ++ xs)
      → at + length (terminator s.dialect.record_ending ∷ as_slice s.dialect.ending_tail)
        ≤ record_start + s.limits.max_record_bytes
      → finish_quoted_field_runtime s input record_start at e
        ≡ parsed
            (record e {
              location =
                  at + length (terminator s.dialect.record_ending ∷ as_slice s.dialect.ending_tail);
              terminated = true;
            })
            true
  unfolding follow_quoted
  ending_single record_start at xs e single h p room =
      let d = s.dialect in
      let last = terminator d.record_ending in
      let tail = as_slice d.ending_tail in
      let found = tail_confirmed at last d.ending_tail xs p in
      let other : (last == d.delimiter) ≡ false = ground (arith, usable.terminator_ne_delimiter) in
      let size = At-length ((last ∷ tail) ++ xs) p in
      let size_tail = length-append tail xs in
      let n : width d.ending_tail ≡ length (last ∷ tail) =
        omega (arith, length-as_slice d.ending_tail usable.ending_tail_clear.0) in
      finish-At record_start at last (tail ++ xs) e p
      ∙ rw (other, follow_quoted)
          (rw (single, ==_refl last)
            (rw (found) (
              rw (n)
                (end_quoted-parsed record_start (at + length (last ∷ tail)) e (omega arith) room))))

  crlf_ending : (ending : RecordEnding) → is_crlf ending ≡ true → ending ≡ crlf
  crlf_ending newline h = cc
  crlf_ending crlf h = refl
  crlf_ending (ending_byte b) h = cc

  ending_crlf :
      (record_start at : ℕ) (xs : Bytes) (e : Engine)
      → s.dialect.record_ending ≡ crlf
      → record_start ≤ at
      → At input at (b'\r' ∷ b'\n' ∷ xs)
      → at + 2 ≤ record_start + s.limits.max_record_bytes
      → finish_quoted_field_runtime s input record_start at e
        ≡ parsed (record e { location = at + 2; terminated = true }) true
  unfolding follow_quoted
  ending_crlf record_start at xs e ending h p room =
      let d = s.dialect in
      let other : (b'\r' == d.delimiter) ≡ false =
        ground (arith, (usable.carriage_return_free ending).0) in
      let is_it : is_crlf d.record_ending ≡ true = ap is_crlf ending in
      let is_line : is_newline d.record_ending ≡ true = ap is_newline ending in
      let lf : byte_is input (at + 1) b'\n' ≡ true =
        byte_found input (at + 1) b'\n'
          (At-head b'\n' xs (At-append (b'\r' ∷ []) (b'\n' ∷ xs) p)) in
      finish-At record_start at b'\r' (b'\n' ∷ xs) e p
      ∙ rw (other, follow_quoted)
          (rw (is_it)
            (rw (is_line) (rw (lf) (end_quoted-parsed record_start (at + 2) e (omega arith) room))))

  no_tail : s.dialect.record_ending ≡ crlf → as_slice s.dialect.ending_tail ≡ []
  no_tail ending = elim (Bool-cases (s.dialect.ending_tail.len == 0)) [
    | inl none_there ↦ empty-as_slice s.dialect.ending_tail none_there
    | inr some_there ↦
        let spelled = usable.ending_spelled (λ z. cc (sym some_there ∙ ap (λ n. n == 0) z)) in
        absurd (cc (sym ending ∙ spelled.1))
  ]

  crlf_bytes :
      is_crlf s.dialect.record_ending ≡ true
      → s.dialect.record_ending ≡ crlf
      → ending_bytes s.dialect ≡ b'\r' ∷ b'\n' ∷ []
  crlf_bytes two ending =
      ap
        (λ b.
          (if b then b'\r' ∷ [] else [])
          ++ (terminator s.dialect.record_ending ∷ as_slice s.dialect.ending_tail))
        two
      ∙ ap₂ (λ last tail. b'\r' ∷ last ∷ tail) (ap terminator ending) (no_tail ending)

  -- The ending that the writer puts behind the last field ends the record.
  pub finish-ending :
      (record_start at : ℕ) (xs : Bytes) (e : Engine)
      → record_start ≤ at
      → At input at (ending_bytes s.dialect ++ xs)
      → at + length (ending_bytes s.dialect) ≤ record_start + s.limits.max_record_bytes
      → finish_quoted_field_runtime s input record_start at e
        ≡ parsed
            (record e { location = at + length (ending_bytes s.dialect); terminated = true })
            true
  finish-ending record_start at xs e h p room =
      elim (Bool-cases (is_crlf s.dialect.record_ending)) [
        | inr single ↦
            rw (single)
              (ending_single record_start at xs e single h (rw (single) at p) (rw (single) at room))
        | inl two ↦
            let ending = crlf_ending s.dialect.record_ending two in
            let same = crlf_bytes two ending in
            ending_crlf record_start at xs e ending h (subst (λ t. At input at (t ++ xs)) same p)
              (omega (arith, room, ap length same))
            ∙ ap (λ t. parsed (record e { location = at + length t; terminated = true }) true)
                (sym same)
      ]

  not_quote :
      (at x : ℕ) (xs : Bytes)
      → x ≢ s.dialect.quote
      → At input at (x ∷ xs)
      → byte_is input at s.dialect.quote ≡ false
  not_quote at x xs other p =
      let found = At-head x xs p in
      let differs : (x == s.dialect.quote) ≡ false = ground (arith, other) in
      rw (found, byte_is) differs

  -- Neither a separator nor an ending begins with the quote.
  pub delimiter_alone :
      (at : ℕ) (xs : Bytes)
      → At input at (delimiter_bytes s.dialect ++ xs)
      → byte_is input at s.dialect.quote ≡ false
  delimiter_alone at xs p =
      not_quote at s.dialect.delimiter (as_slice s.dialect.delimiter_tail ++ xs)
        usable.delimiter_ne_quote p

  pub ending_alone :
      (at : ℕ) (xs : Bytes)
      → At input at (ending_bytes s.dialect ++ xs)
      → byte_is input at s.dialect.quote ≡ false
  ending_alone at xs p = elim (Bool-cases (is_crlf s.dialect.record_ending)) [
    | inr single ↦
        not_quote at (terminator s.dialect.record_ending) (as_slice s.dialect.ending_tail ++ xs)
          usable.terminator_ne_quote (rw (single) at p)
    | inl two ↦
        let ending = crlf_ending s.dialect.record_ending two in
        let cr : b'\r' ≢ s.dialect.quote =
          λ same. (usable.carriage_return_free ending).1 (sym same) in
        not_quote at b'\r' (b'\n' ∷ xs) cr
          (subst (λ t. At input at (t ++ xs)) (crlf_bytes two ending) p)
  ]
