-- ===== src/Parse/Sound.antt =====
-- The invariant of the parser's state between its operations.
pub mod Push
pub mod Unquoted
pub mod Quoted
pub mod Loop
pub mod General
pub mod Stops
pub mod Plain
pub mod Record
pub mod Dispatch
pub mod Endings
pub mod Skipping
pub mod Framing
pub mod Failure
pub mod Positioned
use coseva.Prelude.{
  ℕ, ◌+◌, ◌-◌, ◌≤◌, ◌<◌, List, [], ◌∷◌, ◌++◌, ◌≡◌, refl, Bytes, length, All, length-append, arith,
  ◌⊎◌, true,
}
use coseva.Config.Dialect.Sound.{IsUsable}
use coseva.Parse.Spans.{Source, Span, backing}
use coseva.Parse.Engine.{Settings, Engine, needs_general_parsing}

abbrev pub room : ℕ → ℕ → Source → ℕ
room input_len scratch_len Source.in_input = input_len
room input_len scratch_len Source.in_scratch = scratch_len

-- The span lies in its backing bytes, which are `scratch_len` long where they are the scratch, and
-- is no wider than a field may be.
pub record Fits (s : Settings) (input_len scratch_len : ℕ) (span : Span) : Type 0 where
  pub ordered : span.start ≤ span.end
  pub within : span.end ≤ room input_len scratch_len span.source
  pub narrow : span.end - span.start ≤ s.limits.max_field_bytes

pub record IsSound (s : Settings) (input : Bytes) (e : Engine) : Type 0 where
  pub located : e.location ≤ length input
  pub sized : e.input_len ≡ length input
  pub counted : length e.spans ≤ s.limits.max_fields
  pub fitting : All (Fits s (length input) (length e.scratch)) e.spans

-- A usable dialect, and the limits under which no slice is out of range: a field that may be as
-- long as a record, or as the input, and, for the single-byte scan, a record that may be as long as
-- the input.
pub record IsScannable (s : Settings) (input : Bytes) : Type 0 where
  pub usable : IsUsable s.dialect
  pub quoted_fields :
      (s.limits.max_record_bytes ≤ s.limits.max_field_bytes)
      ⊎ (length input ≤ s.limits.max_field_bytes)
  pub unquoted_fields :
      (needs_general_parsing s.dialect s.trim ≡ true) ⊎ (length input ≤ s.limits.max_record_bytes)

pub All-append {ℓ κ} :
    {A : Type ℓ} (P : A → Type κ) (xs ys : List A) → All P xs → All P ys → All P (xs ++ ys)
All-append P [] ys h k = k
All-append P (x ∷ xs) ys h k = (h.0, All-append P xs ys h.1 k)

pub All-weaken {ℓ κ ι} :
    {A : Type ℓ} {P : A → Type κ} {Q : A → Type ι} (xs : List A)
    → ((x : A) → P x → Q x)
    → All P xs
    → All Q xs
All-weaken [] f h = tt
All-weaken (x ∷ xs) f h = (f x h.0, All-weaken xs f h.1)

within-longer :
    (i j k : ℕ) (source : Source) (end : ℕ) → j ≤ k → end ≤ room i j source → end ≤ room i k source
within-longer i j k Source.in_input end h f = f
within-longer i j k Source.in_scratch end h f = omega arith

-- A longer scratch holds what a shorter one held.
Fits-longer : (s : Settings) (i j k : ℕ) (span : Span) → j ≤ k → Fits s i j span → Fits s i k span
Fits-longer s i j k span h f = record {
  ordered = f.ordered;
  within = within-longer i j k span.source span.end h f.within;
  narrow = f.narrow;
}

pub fitting-longer :
    (s : Settings) (i j k : ℕ) (spans : List Span)
    → j ≤ k
    → All (Fits s i j) spans
    → All (Fits s i k) spans
fitting-longer s i j k spans h = All-weaken spans (λ span. Fits-longer s i j k span h)
