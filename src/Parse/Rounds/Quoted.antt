-- ===== src/Parse/Rounds/Quoted.antt =====
-- A quoted field is read back: the loop over its content pushes the field that was written.
use coseva.Prelude.{
  ℕ, zero, suc, ◌+◌, ◌-◌, ◌≤◌, ◌<◌, Bool, true, false, [], ◌∷◌, ◌++◌, some, ◌≡◌, refl, sym, ap, ap₂,
  subst, subst₂, ◌∙◌, Bytes, length, drop, take, any, arith, inl, inr, length-append, append_assoc,
  take-append, drop-append, Option-cases, leb,
}
use coseva.Search.{position, position-FoundAt, position-none}
use coseva.Emit.Field.Rounds.{each, each-append, each_kept}
use coseva.Emit.Field.Quoted.{escaped_byte}
use coseva.Parse.Spans.{Source, Span, resolve_span, slice}
use coseva.Parse.Engine.{Settings, Engine, Parsed, parsed, ◌>>=◌, byte_is, scan_end}
use coseva.Parse.Push.Laws.{copied_bytes, copy_segment-parsed}
use coseva.Parse.Quoted.{
  find_in_quotes, take_escape, close_quoted, quoted_step, quoted_arm, quoted_loop,
  finish_quoted_field_runtime,
}
use coseva.Parse.Outcome.{slice_of-in_range}
use coseva.Parse.Place.{At, At-append, At-head, At-length, At-slice, At-prefix, position-append}
use coseva.Parse.Rounds.{
  IsRoomy, scan_end-beyond, check_scratch_limit-passes, pushed, push_span-input, push_span-scratch,
  Style,
}

-- The span shows the field in this scratch, and in every longer one.
abbrev pub Shows : Bytes → Bytes → Bytes → Span → Type 0
Shows input scratch field span = (more : Bytes) → resolve_span input (scratch ++ more) span ≡ field

-- A quoted field that has been read: its span is pushed, the scratch has grown to fit in what was
-- read of the input, and what is left to do is to look behind the quote.
pub record IsClosed (s : Settings) (input : Bytes) (record_start : ℕ) (e : Engine) (base : Bytes)
    (end : ℕ) (field : Bytes) (w : Parsed Bool) : Type 0 where
  pub span : Span
  pub tail : Bytes
  pub runs :
      w
      ≡ finish_quoted_field_runtime s input record_start end
          (record e { spans = e.spans ++ (span ∷ []); scratch = base ++ tail })
  pub shows : Shows input (base ++ tail) field span
  pub quoted : span.quoted ≡ true
  pub fits : length (base ++ tail) ≤ end

module _ (s : Settings) (input : Bytes) (record_start content_start stop : ℕ)
    (roomy : IsRoomy s record_start content_start stop) where
  -- The scratch that the loop began with does not show in what it leaves.
  same_engine :
      {record_start : ℕ} {e : Engine} {base scratch : Bytes} {end : ℕ} {field : Bytes}
      {w : Parsed Bool}
      → IsClosed s input record_start (record e { scratch = scratch }) base end field w
      → IsClosed s input record_start e base end field w
  same_engine c = record {
    span = c.span;
    tail = c.tail;
    runs = c.runs;
    shows = c.shows;
    quoted = c.quoted;
    fits = c.fits;
  }

  take_escape-parsed :
      (scratch_start at cursor decoded : ℕ) (copied : Bool) (e : Engine)
      → content_start ≤ cursor
      → cursor ≤ at
      → at + 1 ≤ length input
      → scratch_start ≤ length e.scratch
      → length e.scratch + length (copied_bytes input copied content_start cursor at) + 1
        ≤ scratch_start + s.limits.max_field_bytes
      → take_escape s input content_start scratch_start at cursor copied decoded e
        ≡ parsed
            (record e {
              scratch =
                  (e.scratch ++ copied_bytes input copied content_start cursor at)
                  ++ (decoded ∷ []);
            })
            true
  unfolding take_escape
  take_escape-parsed scratch_start at cursor decoded copied e h k l m n =
      let piece = copied_bytes input copied content_start cursor at in
      let e' : Engine = record e { scratch = (e.scratch ++ piece) ++ (decoded ∷ []) } in
      let long = length-append (e.scratch ++ piece) (decoded ∷ []) in
      let piece_long = length-append e.scratch piece in
      rw (copy_segment-parsed input copied content_start cursor at e h k (omega arith), ◌>>=◌)
        (rw
          (
            check_scratch_limit-passes s input scratch_start at e' (omega (arith, long, piece_long))
                (omega (arith, long, piece_long)),
            ◌>>=◌,
          )
          refl)

  show_scratch :
      (base acc more : Bytes) (quoted : Bool)
      → resolve_span input
          ((base ++ acc) ++ more)
          (pushed Source.in_scratch (length base) (length (base ++ acc)) quoted)
        ≡ acc
  unfolding resolve_span
  show_scratch base acc more quoted =
      let n : length (base ++ acc) - length base ≡ length acc =
        omega (arith, length-append base acc) in
      rw (n, append_assoc base acc more, drop-append base (acc ++ more)) (take-append acc more)

  -- The quote that ends the field, where the bytes before it went to the scratch or stayed.
  close-IsClosed :
      (cursor : ℕ) (copied : Bool) (e : Engine) (base acc f after : Bytes)
      → At input cursor (f ++ (s.dialect.quote ∷ after))
      → e.scratch ≡ base ++ acc
      → (copied ≡ false → (acc ≡ []) × (content_start ≡ cursor))
      → content_start + length acc ≤ cursor
      → cursor + length f ≡ stop
      → length (base ++ acc) ≤ cursor
      → e.input_len ≡ length input
      → length e.spans < s.limits.max_fields
      → IsClosed s input record_start e base (cursor + length f + 1) (acc ++ f) (
          close_quoted s input record_start content_start
            (length base)
            (cursor + length f)
            cursor
            copied
            e)
  unfolding close_quoted
  close-IsClosed cursor true e base acc f after p q r room ends short l m =
      let at = cursor + length f in
      let all = base ++ (acc ++ f) in
      let grown : e.scratch ++ f ≡ all = ap (λ t. t ++ f) q ∙ append_assoc base acc f in
      let long = length-append base (acc ++ f) in
      let long_acc = length-append base acc in
      let long_f = length-append acc f in
      let size = At-length (f ++ (s.dialect.quote ∷ after)) p in
      let size_f = length-append f (s.dialect.quote ∷ after) in
      let e' : Engine = record e { scratch = all } in
      record {
        span = pushed Source.in_scratch (length base) (length all) true;
        tail = acc ++ f;
        runs =
            rw
              (
                slice_of-in_range input cursor at e (omega arith) (omega (arith, size, size_f)),
                ◌>>=◌,
              )
              (rw (At-slice f (s.dialect.quote ∷ after) p) (
                rw (grown) (
                  rw
                    (
                      push_span-scratch s input (length base) (length all) at true e'
                          (omega (arith, long))
                          (omega (arith, long, long_f, room, ends, roomy.fields)) (omega arith)
                          (omega (arith, long, long_acc, long_f, size, size_f)) l m,
                      ◌>>=◌,
                    )
                    refl)));
        shows = λ more. show_scratch base (acc ++ f) more true;
        quoted = refl;
        fits = omega (arith, long, long_acc, long_f);
      }
  close-IsClosed cursor false e base acc f after p q r room ends short l m =
      let at = cursor + length f in
      let size = At-length (f ++ (s.dialect.quote ∷ after)) p in
      let size_f = length-append f (s.dialect.quote ∷ after) in
      let nothing = (r refl).0 in
      let start = (r refl).1 in
      let shown : slice input content_start at ≡ acc ++ f =
        ap (λ i. slice input i at) start
        ∙ At-slice f (s.dialect.quote ∷ after) p
        ∙ ap (λ t. t ++ f) (sym nothing) in
      record {
        span = pushed Source.in_input content_start at true;
        tail = acc;
        runs =
            rw
              (
                push_span-input s input content_start at at true e (omega (arith, start))
                    (omega (arith, ends, roomy.fields)) (omega (arith, size, size_f)) l m,
                ◌>>=◌,
              )
              (ap
                (λ t. finish_quoted_field_runtime s input record_start (at + 1) (record e {
                  spans = e.spans ++ (pushed Source.in_input content_start at true ∷ []);
                  scratch = t;
                }))
                q);
        shows = λ more. unfold resolve_span in shown;
        quoted = refl;
        fits = omega (arith, short);
      }

  module _ (style : Style s input s.dialect.escape) where
    -- A round of the loop, at the first byte that its search stops at.
    loop_round :
        (fuel scratch_start cursor : ℕ) (copied : Bool) (e : Engine) (b : Bytes) (x : ℕ) (a : Bytes)
        → At input cursor (b ++ (x ∷ a))
        → any style.special b ≡ false
        → style.special x ≡ true
        → cursor + length b ≤ stop
        → quoted_loop s input
            (suc fuel)
            record_start
            content_start
            scratch_start
            cursor
            cursor
            copied
            e
          ≡ quoted_arm s input record_start content_start scratch_start
              (cursor + length b)
              cursor
              copied
              (λ now.
                quoted_loop s input fuel record_start content_start scratch_start
                  (cursor + length b + 2)
                  (cursor + length b + 2)
                  now)
              (quoted_step s input s.dialect.escape
                (scan_end s input record_start content_start)
                (cursor + length b)
                x)
              e
    unfolding quoted_loop
    loop_round fuel scratch_start cursor copied e b x a p none_before fits within =
        let end = scan_end s input record_start content_start in
        let found_at = At-append b (x ∷ a) p in
        let size = At-length (x ∷ a) found_at in
        let beyond : cursor + length b < end =
          scan_end-beyond s input record_start content_start stop (cursor + length b) roomy within
            (omega (arith, size)) in
        let inside : leb cursor end ≡ true = ground arith in
        let lead = b ++ (x ∷ []) in
        let rest = take (end - cursor - length lead) a in
        let seen : slice input cursor end ≡ b ++ (x ∷ rest) =
          At-prefix lead a end (subst (At input cursor) (sym (append_assoc b (x ∷ []) a)) p)
            (omega (arith, length-append b (x ∷ [])))
          ∙ append_assoc b (x ∷ []) rest in
        let search : find_in_quotes s s.dialect.escape (slice input cursor end) ≡ some (length b) =
          ap (find_in_quotes s s.dialect.escape) seen
          ∙ style.searches (b ++ (x ∷ rest))
          ∙ position-append style.special b x rest none_before fits in
        let byte = At-head x a (At-append b (x ∷ a) p) in
        rw (inside, quoted_loop) (rw (search) (rw (byte) refl))

    -- The field's last round: nothing before the quote stops the search.
    last_round :
        (fuel cursor : ℕ) (copied : Bool) (e : Engine) (base acc f after : Bytes)
        → any style.special f ≡ false
        → At input cursor (f ++ (s.dialect.quote ∷ after))
        → e.scratch ≡ base ++ acc
        → (copied ≡ false → (acc ≡ []) × (content_start ≡ cursor))
        → content_start + length acc ≤ cursor
        → length (base ++ acc) ≤ cursor
        → e.input_len ≡ length input
        → length e.spans < s.limits.max_fields
        → byte_is input (cursor + length f + 1) s.dialect.quote ≡ false
        → cursor + length f ≡ stop
        → IsClosed s input record_start e base (cursor + length f + 1) (acc ++ f) (
            quoted_loop s input
              (suc fuel)
              record_start
              content_start
              (length base)
              cursor
              cursor
              copied
              e)
    unfolding quoted_arm
    last_round fuel cursor copied e base acc f after h p q r room j k l m ends =
        let end = scan_end s input record_start content_start in
        let round =
          loop_round fuel (length base) cursor copied e f s.dialect.quote after p h
            style.quote_special (omega arith) in
        rw (round) (
          rw (style.ends end (cursor + length f) m)
            (close-IsClosed cursor copied e base acc f after p q r room ends j k l))

    copied_piece :
        (content_start cursor : ℕ) (copied : Bool) (b more : Bytes)
        → At input cursor (b ++ more)
        → (copied ≡ false → content_start ≡ cursor)
        → copied_bytes input copied content_start cursor (cursor + length b) ≡ b
    copied_piece content_start cursor true b more p r = At-slice b more p
    copied_piece content_start cursor false b more p r =
        let n : cursor - content_start ≡ 0 = omega (arith, r refl) in
        ap (λ k. take k (drop content_start input) ++ slice input cursor (cursor + length b)) n
        ∙ At-slice b more p

    -- A round that escapes: its byte joins what the scratch holds of the field.
    escape_round :
        (fuel cursor : ℕ) (copied : Bool) (e : Engine) (base acc b : Bytes) (x : ℕ) (more : Bytes)
        → any style.special b ≡ false
        → style.special x ≡ true
        → At input cursor (b ++ (style.lead x ∷ x ∷ more))
        → e.scratch ≡ base ++ acc
        → (copied ≡ false → content_start ≡ cursor)
        → content_start + length acc ≤ cursor
        → cursor + length b + 1 ≤ stop
        → length (base ++ acc) ≤ cursor
        → quoted_loop s input
            (suc fuel)
            record_start
            content_start
            (length base)
            cursor
            cursor
            copied
            e
          ≡ quoted_loop s input fuel record_start content_start
              (length base)
              (cursor + length b + 2)
              (cursor + length b + 2)
              true
              (record e { scratch = base ++ (acc ++ (b ++ (x ∷ []))) })
    unfolding quoted_arm
    escape_round fuel cursor copied e base acc b x more h g p q r i within j =
        let at = cursor + length b in
        let end = scan_end s input record_start content_start in
        let round =
          loop_round fuel (length base) cursor copied e b (style.lead x) (x ∷ more) p h
            (style.lead_special x g) (omega arith) in
        let lead_at = At-append b (style.lead x ∷ x ∷ more) p in
        let byte_at = At-append (style.lead x ∷ []) (x ∷ more) lead_at in
        let next_byte = At-head x more byte_at in
        let piece = copied_bytes input copied content_start cursor at in
        let same : piece ≡ b =
          copied_piece content_start cursor copied b (style.lead x ∷ x ∷ more) p r in
        let long : length e.scratch ≡ length base + length acc =
          ap length q ∙ length-append base acc in
        let grown : (e.scratch ++ piece) ++ (x ∷ []) ≡ base ++ (acc ++ (b ++ (x ∷ []))) =
          ap₂ (λ u v. (u ++ v) ++ (x ∷ [])) q same
          ∙ append_assoc (base ++ acc) b (x ∷ [])
          ∙ append_assoc base acc (b ++ (x ∷ [])) in
        let taken =
          take_escape-parsed (length base) at cursor x copied e (omega arith) (omega arith)
            (omega (arith, byte_at.inside)) (omega (arith, long))
            (omega (arith, long, ap length same, roomy.fields)) in
        rw (round) (
          rw (style.steps end at x g next_byte) (
            rw (taken, ◌>>=◌)
              (ap
                (λ t.
                  quoted_loop s input fuel record_start content_start (length base) (at + 2)
                    (at + 2) true (record e { scratch = t }))
                grown)))

    pub quoted_loop-IsClosed :
        (fuel cursor : ℕ) (copied : Bool) (e : Engine) (base acc f after : Bytes)
        → length f < fuel
        → At input cursor
            (each (escaped_byte s.dialect s.dialect.escape) f ++ (s.dialect.quote ∷ after))
        → e.scratch ≡ base ++ acc
        → (copied ≡ false → (acc ≡ []) × (content_start ≡ cursor))
        → content_start + length acc ≤ cursor
        → length (base ++ acc) ≤ cursor
        → e.input_len ≡ length input
        → length e.spans < s.limits.max_fields
        → byte_is input
            (cursor + length (each (escaped_byte s.dialect s.dialect.escape) f) + 1)
            s.dialect.quote
          ≡ false
        → cursor + length (each (escaped_byte s.dialect s.dialect.escape) f) ≡ stop
        → IsClosed s input record_start e base
            (cursor + length (each (escaped_byte s.dialect s.dialect.escape) f) + 1)
            (acc ++ f)
            (quoted_loop s input fuel record_start content_start
              (length base)
              cursor
              cursor
              copied
              e)
    quoted_loop-IsClosed zero cursor copied e base acc f after h p q r i j k l m fin =
        absurd (omega arith)
    quoted_loop-IsClosed (suc fuel) cursor copied e base acc f after h p q r i j k l m fin =
        let esc = escaped_byte s.dialect s.dialect.escape in
        let result = λ (end : ℕ) (field : Bytes). IsClosed s input record_start e base end field (
          quoted_loop s input (suc fuel) record_start content_start (length base) cursor cursor
            copied e) in
        elim (Option-cases (position style.special f)) [
          | inl nothing ↦
              let none_in = position-none style.special f nothing in
              let same : each esc f ≡ f = each_kept style.special esc style.keeps f none_in in
              rw (same) (
                last_round fuel cursor copied e base acc f after none_in (rw (same) at p) q r i j k
                  l (rw (same) at m) (omega (arith, fin, ap length same)))
          | inr (n, hit) ↦
              let found = position-FoundAt style.special f n hit in
              let b = found.before in
              let x = found.byte in
              let c = found.after in
              let q_after = s.dialect.quote ∷ after in
              let text : each esc f ≡ b ++ (style.lead x ∷ x ∷ each esc c) =
                ap (each esc) found.cut
                ∙ each-append esc b (x ∷ c)
                ∙ ap₂ ◌++◌ (each_kept style.special esc style.keeps b found.none_before)
                    (ap (λ t. t ++ each esc c) (style.doubles x found.fits)) in
              let p' : At input cursor (b ++ (style.lead x ∷ x ∷ (each esc c ++ q_after))) =
                subst (At input cursor)
                  (ap (λ t. t ++ q_after) text
                    ∙ append_assoc b (style.lead x ∷ x ∷ each esc c) q_after)
                  p in
              let behind : At input (cursor + length b + 2) (each esc c ++ q_after) =
                At-append (style.lead x ∷ x ∷ []) (each esc c ++ q_after)
                  (At-append b (style.lead x ∷ x ∷ (each esc c ++ q_after)) p') in
              let size = ap length text ∙ length-append b (style.lead x ∷ x ∷ each esc c) in
              let ends : cursor + length b + 2 + length (each esc c) + 1
                  ≡ cursor + length (each esc f) + 1 =
                omega (arith, size) in
              let whole : (acc ++ (b ++ (x ∷ []))) ++ c ≡ acc ++ f =
                append_assoc acc (b ++ (x ∷ [])) c
                ∙ ap (λ t. acc ++ t) (append_assoc b (x ∷ []) c ∙ sym found.cut) in
              let shorter = ap length found.cut ∙ length-append b (x ∷ c) in
              let acc' = acc ++ (b ++ (x ∷ [])) in
              let long = length-append base acc in
              let long' = length-append base acc' in
              let long_acc = length-append acc (b ++ (x ∷ [])) in
              let long_b = length-append b (x ∷ []) in
              rw
                (escape_round fuel cursor copied e base acc b x (each esc c ++ q_after)
                  found.none_before found.fits p' q (λ fresh. (r fresh).1) i
                  (omega (arith, fin, size)) j)
                (subst₂
                  (λ end field. IsClosed s input record_start e base end field (
                    quoted_loop s input fuel record_start content_start (length base)
                      (cursor + length b + 2) (cursor + length b + 2) true
                      (record e { scratch = base ++ acc' })))
                  ends whole
                  (same_engine (
                    quoted_loop-IsClosed fuel (cursor + length b + 2) true
                      (record e { scratch = base ++ acc' }) base acc' c after
                      (omega (arith, shorter)) behind refl (λ t. cc t)
                      (omega (arith, i, long_acc, long_b))
                      (omega (arith, long, long', long_acc, long_b, j)) k l
                      (ap (λ n. byte_is input n s.dialect.quote) ends ∙ m)
                      (omega (arith, fin, size)))))
        ]
