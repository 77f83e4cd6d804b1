-- ===== src/Config/Options/Bits.antt =====
-- `Whitespace` and `Recovery` as the bits of a byte.
use coseva.Prelude.{
  ℕ, ◌<◌, Bool, true, false, Option, none, some, ◌≡◌, refl, ◌↔◌, ◌==◌, ◌&&◌, not, ltb,
  if◌then◌else◌, arith, check_below, check_below_lem, IsByte,
}
use coseva.Config.Options.{
  Whitespace, whitespace_bits, whitespace_from_bits, Recovery, set_flag, contains_flag,
  recovery_from_bits, quoting_flag, unquoted_quotes_flag, any_backslash_flag,
  trailing_whitespace_flag,
}

-- an accepted byte is the encoding of what it decodes to
abbrev encodes : ℕ → Option Whitespace → Bool
encodes b none = true
encodes b (some w) = whitespace_bits w == b

whitespace_table : check_below 256 (λ b. encodes b (whitespace_from_bits b)) ≡ true
unfolding check_below whitespace_bits whitespace_from_bits
whitespace_table = refl

encodes-eq :
    (b : ℕ) (o : Option Whitespace) {w : Whitespace}
    → encodes b o ≡ true
    → o ≡ some w
    → b ≡ whitespace_bits w
encodes-eq b none h e = cc
encodes-eq b (some v) h e = ground (arith)

bits_of_flags :
    (f h q : Bool)
    → whitespace_from_bits (whitespace_bits (record { fields = f; headers = h; quoted = q }))
      ≡ some (record { fields = f; headers = h; quoted = q })
unfolding whitespace_bits whitespace_from_bits
bits_of_flags false false false = refl
bits_of_flags false false true = refl
bits_of_flags false true false = refl
bits_of_flags false true true = refl
bits_of_flags true false false = refl
bits_of_flags true false true = refl
bits_of_flags true true false = refl
bits_of_flags true true true = refl

-- A byte decodes to a `Whitespace` exactly when it is the encoding of it.
pub whitespace_from_bits-bits :
    (b : ℕ) (w : Whitespace)
    → IsByte b
    → (whitespace_from_bits b ≡ some w) ↔ (b ≡ whitespace_bits w)
whitespace_from_bits-bits b w h = (
  λ e. encodes-eq b (whitespace_from_bits b) (check_below_lem 256 _ b whitespace_table h) e,
  λ e. rw e (bits_of_flags w.fields w.headers w.quoted),
)

abbrev is_some_flags : Option Recovery → ℕ → Bool
is_some_flags none b = not (ltb b 16)
is_some_flags (some r) b = ltb b 16 && r.flags == b

recovery_table : check_below 256 (λ b. is_some_flags (recovery_from_bits b) b) ≡ true
unfolding check_below recovery_from_bits
recovery_table = refl

-- one of the four rules
pub data IsRule : ℕ → Type 0 where
  quoting : IsRule quoting_flag
  unquoted_quotes : IsRule unquoted_quotes_flag
  any_backslash : IsRule any_backslash_flag
  trailing_whitespace : IsRule trailing_whitespace_flag

some_flags_iff :
    (b : ℕ) (o : Option Recovery) (r : Recovery)
    → is_some_flags o b ≡ true
    → (o ≡ some r) ↔ (b < 16) × (r.flags ≡ b)
some_flags_iff b none r h = ground arith
some_flags_iff b (some s) r h = ground arith

-- A byte decodes to a `Recovery` exactly when it sets none but the four rule bits, and then the
-- rules are those bits.
pub recovery_from_bits_iff :
    (b : ℕ) (r : Recovery) → IsByte b → (recovery_from_bits b ≡ some r) ↔ (b < 16) × (r.flags ≡ b)
recovery_from_bits_iff b r h =
    some_flags_iff b (recovery_from_bits b) r (check_below_lem 256 _ b recovery_table h)

abbrev same : Bool → Bool → Bool
same true b = b
same false b = not b

same→eq : (a b : Bool) → same a b ≡ true → a ≡ b
same→eq a b h = ground arith

abbrev set_law : ℕ → ℕ → Bool → ℕ → Bool
set_law f g e b =
    let r : Recovery = record { flags = b } in
    same (contains_flag (set_flag r f e) g) (if f == g then e else contains_flag r g)

abbrev all_rules : (ℕ → Bool) → Bool
all_rules p =
    p quoting_flag && p unquoted_quotes_flag && p any_backslash_flag && p trailing_whitespace_flag

all_rules_sound : (p : ℕ → Bool) (f : ℕ) → IsRule f → all_rules p ≡ true → p f ≡ true
all_rules_sound p _ quoting h = ground arith
all_rules_sound p _ unquoted_quotes h = ground arith
all_rules_sound p _ any_backslash h = ground arith
all_rules_sound p _ trailing_whitespace h = ground arith

set_table : (e : Bool) → all_rules (λ f. all_rules (λ g. check_below 256 (set_law f g e))) ≡ true
unfolding check_below set_flag contains_flag
set_table true = refl
set_table false = refl

-- Setting one rule answers for that rule and leaves the answer for every other rule as it was.
pub contains_flag-set_flag :
    (r : Recovery) (f g : ℕ) (e : Bool)
    → IsByte r.flags
    → IsRule f
    → IsRule g
    → contains_flag (set_flag r f e) g ≡ (if f == g then e else contains_flag r g)
contains_flag-set_flag r f g e h hf hg =
    let row =
      all_rules_sound (λ f. all_rules (λ g. check_below 256 (set_law f g e))) f hf (set_table e) in
    let cell = all_rules_sound (λ g. check_below 256 (set_law f g e)) g hg row in
    same→eq _ _ (check_below_lem 256 (set_law f g e) r.flags cell h)
