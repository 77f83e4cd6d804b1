-- ===== src/Parse/Rounds.antt =====
-- Reading what the writers wrote: the limits under which a record of the input fits, the checks
-- that they pass, and the two styles of escaping in quotes behind one interface.
pub mod Quoted
pub mod Behind
pub mod Shown
pub mod Record
pub mod Emitted
pub mod Document
use coseva.Prelude.{
  ℕ, ◌+◌, ◌-◌, ◌≤◌, ◌<◌, Bool, true, false, List, [], ◌∷◌, ◌++◌, Option, some, ◌≡◌, ◌≢◌, refl,
  Bytes, length, get_elem?, arith, ◌==◌, ==_refl, not, ◌&&◌, ◌||◌, if◌then◌else◌, ap,
}
use coseva.Search.{position, contains, find1, find2, find}
use coseva.Config.Options.{
  Escape, double_quote, backslash, mysql_escape, unquoted, escapes_unquoted,
  permits_any_backslash_escape,
}
use coseva.Config.Dialect.{Dialect}
use coseva.Config.Dialect.Sound.{IsUsable, EscapeIsClear}
use coseva.Emit.Field.Quoted.{escaped_byte}
use coseva.Parse.Spans.{Source, Span, try_push_input_bounded, try_push_scratch_bounded}
use coseva.Parse.Engine.{
  Settings, Engine, parsed, scan_end, byte_is, check_record_limit, check_record_limit_for,
  check_scratch_limit, check_scratch_limit_for,
}
use coseva.Parse.Push.{push_span}
use coseva.Parse.Quoted.{find_in_quotes, quoted_step, Step, closes, escapes}

-- Limits that a field keeps, whose content begins at one place and ends at another, and its record.
pub record IsRoomy (s : Settings) (record_start content_start stop : ℕ) : Type 0 where
  pub fields : stop ≤ content_start + s.limits.max_field_bytes
  pub records : stop ≤ record_start + s.limits.max_record_bytes

-- the span that a push adds
abbrev pub pushed : Source → ℕ → ℕ → Bool → Span
pushed source start end quoted = record {
  source = source;
  start = start;
  end = end;
  quoted = quoted;
  null = false;
}

module _ (s : Settings) (input : Bytes) where
  pub scan_end-beyond :
      (record_start content_start stop at : ℕ)
      → IsRoomy s record_start content_start stop
      → at ≤ stop
      → at < length input
      → at < scan_end s input record_start content_start
  unfolding scan_end
  scan_end-beyond record_start content_start stop at roomy h k =
      omega (arith, roomy.fields, roomy.records)

  pub check_record_limit-passes :
      (record_start at : ℕ) (e : Engine)
      → record_start ≤ at
      → at ≤ record_start + s.limits.max_record_bytes
      → check_record_limit s input record_start at e ≡ parsed e tt
  unfolding check_record_limit check_record_limit_for
  check_record_limit-passes record_start at e h k = ground arith

  pub check_scratch_limit-passes :
      (start at : ℕ) (e : Engine)
      → start ≤ length e.scratch
      → length e.scratch ≤ start + s.limits.max_field_bytes
      → check_scratch_limit s input start at e ≡ parsed e tt
  unfolding check_scratch_limit check_scratch_limit_for
  check_scratch_limit-passes start at e h k = ground arith

  pub push_span-input :
      (start end at : ℕ) (quoted : Bool) (e : Engine)
      → start ≤ end
      → end ≤ start + s.limits.max_field_bytes
      → end ≤ length input
      → e.input_len ≡ length input
      → length e.spans < s.limits.max_fields
      → push_span s input Source.in_input start end at quoted e
        ≡ parsed (record e { spans = e.spans ++ (pushed Source.in_input start end quoted ∷ []) }) tt
  unfolding push_span try_push_input_bounded
  push_span-input start end at quoted e h n k l m = ground arith

  pub push_span-scratch :
      (start end at : ℕ) (quoted : Bool) (e : Engine)
      → start ≤ end
      → end ≤ start + s.limits.max_field_bytes
      → end ≤ length e.scratch
      → end ≤ length input
      → e.input_len ≡ length input
      → length e.spans < s.limits.max_fields
      → push_span s input Source.in_scratch start end at quoted e
        ≡ parsed
            (record e { spans = e.spans ++ (pushed Source.in_scratch start end quoted ∷ []) })
            tt
  unfolding push_span try_push_scratch_bounded
  push_span-scratch start end at quoted e h n j k l m = ground arith

-- What the reader's loop asks of an escape style: the bytes that its search stops at, what stands
-- before an escaped byte, and what the byte found is to it.
pub record Style (s : Settings) (input : Bytes) (escape : Escape) : Type 0 where
  pub special : ℕ → Bool
  pub lead : ℕ → ℕ
  pub searches : (xs : Bytes) → find_in_quotes s escape xs ≡ position special xs
  pub doubles : (x : ℕ) → special x ≡ true → escaped_byte s.dialect escape x ≡ lead x ∷ x ∷ []
  pub keeps : (x : ℕ) → special x ≡ false → escaped_byte s.dialect escape x ≡ x ∷ []
  pub lead_special : (x : ℕ) → special x ≡ true → special (lead x) ≡ true
  pub quote_special : special s.dialect.quote ≡ true
  pub steps :
      (end at x : ℕ)
      → special x ≡ true
      → get_elem? input (at + 1) ≡ some x
      → quoted_step s input escape end at (lead x) ≡ escapes x
  pub ends :
      (end at : ℕ)
      → byte_is input (at + 1) s.dialect.quote ≡ false
      → quoted_step s input escape end at s.dialect.quote ≡ closes

double_style : (s : Settings) (input : Bytes) → Style s input double_quote
unfolding find_in_quotes find1 find quoted_step
double_style s input = record {
  special = contains (s.dialect.quote ∷ []);
  lead = λ x. s.dialect.quote;
  searches = λ xs. refl;
  doubles = λ x h. ground arith;
  keeps = λ x h. ground arith;
  lead_special = λ x h. ground arith;
  quote_special = ground arith;
  steps = λ end at x h found.
      let quote : s.dialect.quote ≡ x = ground arith in
      let again : byte_is input (at + 1) s.dialect.quote ≡ true = ground arith in
      rw (again, quoted_step) (ap escapes quote);
  ends = λ end at alone. rw (alone, quoted_step) refl;
}

backslash_style :
    (s : Settings) (input : Bytes) (e : ℕ) → e ≢ s.dialect.quote → Style s input (backslash e)
unfolding find_in_quotes find2 find quoted_step
backslash_style s input e other = record {
  special = contains (s.dialect.quote ∷ e ∷ []);
  lead = λ x. e;
  searches = λ xs. refl;
  doubles = λ x h. ground arith;
  keeps = λ x h. ground arith;
  lead_special = λ x h. ground arith;
  quote_special = ground arith;
  steps = λ end at x h found.
      let allowed : (not (x == s.dialect.quote)
            && not (x == e)
            && not (permits_any_backslash_escape s.syntax))
          ≡ false =
        ground arith in
      rw (==_refl e, quoted_step) (rw (found) (rw (allowed) refl));
  ends = λ end at alone. ground (arith, other);
}

-- Every style that escapes in quotes alone is read by the loop as it is written.
pub style_of :
    (s : Settings) (input : Bytes) (escape : Escape)
    → EscapeIsClear escape s.dialect
    → escapes_unquoted escape ≡ false
    → Style s input escape
style_of s input double_quote clear quotes = double_style s input
style_of s input (backslash e) clear quotes = backslash_style s input e clear.1
style_of s input mysql_escape clear quotes = absurd (cc quotes)
style_of s input (unquoted e) clear quotes = absurd (cc quotes)
