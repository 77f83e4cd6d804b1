-- ===== src/Parse/Outcome.antt =====
-- What a parser's operation ends in: total correctness, with the rules for its steps.
use coseva.Prelude.{
  ℕ, ◌≤◌, ◌<◌, Bool, true, false, some, ◌≡◌, refl, Bytes, if◌then◌else◌, length, get_elem?,
  get_elem?-some, arith,
}
use coseva.Parse.Spans.{slice}
use coseva.Parse.Engine.{
  Engine, Parser, Parsed, parsed, rejected, panicked, exhausted, ◌>>=◌, ◌>>◌, slice_of, byte_is,
}

-- The operation does not panic and has fuel enough: it ends with an error, or with a state and a
-- value that `Q` holds of.
abbrev pub Ends {ℓ} : {A : Type ℓ} → (Engine → A → Type 0) → Parsed A → Type 0
Ends Q (parsed e a) = Q e a
Ends Q (rejected e error) = Unit {0}
Ends Q panicked = ⊥
Ends Q exhausted = ⊥

module _ {ℓ κ} {A : Type ℓ} {B : Type κ} (P : Engine → A → Type 0) (Q : Engine → B → Type 0) where
  Ends-value :
      (w : Parsed A) (f : A → Parser B) (e : Engine)
      → Ends P w
      → ((e' : Engine) (a : A) → P e' a → Ends Q (f a e'))
      → Ends Q (((λ _. w) >>= f) e)
  Ends-value (parsed e' a) f e h k = k e' a h
  Ends-value (rejected e' error) f e h k = tt
  Ends-value panicked f e h k = h
  Ends-value exhausted f e h k = h

  pub Ends->>= :
      (m : Parser A) (f : A → Parser B) (e : Engine)
      → Ends P (m e)
      → ((e' : Engine) (a : A) → P e' a → Ends Q (f a e'))
      → Ends Q ((m >>= f) e)
  Ends->>= m f e = Ends-value (m e) f e

-- A step that only checks: the state stays, and `P` holds.
abbrev pub Keeps {ℓ} : {A : Type ℓ} → Engine → Type 0 → Engine → A → Type 0
Keeps e P e' a = (e' ≡ e) × P

pub Keeps->>= {ℓ} :
    {B : Type ℓ} (P : Type 0) (Q : Engine → B → Type 0) (m : Parser (Unit {0})) (k : Parser B)
    (e : Engine)
    → Ends (Keeps e P) (m e)
    → (P → Ends Q (k e))
    → Ends Q ((m >> k) e)
Keeps->>= P Q m k e h next =
    Ends->>= (Keeps e P) Q m (λ _. k) e h (λ e' a kept. rw kept.0 (next kept.1))

pub Ends-weaken {ℓ} :
    {A : Type ℓ} (P Q : Engine → A → Type 0) (w : Parsed A)
    → Ends P w
    → ((e : Engine) (a : A) → P e a → Q e a)
    → Ends Q w
Ends-weaken P Q (parsed e a) h k = k e a h
Ends-weaken P Q (rejected e error) h k = tt
Ends-weaken P Q panicked h k = h
Ends-weaken P Q exhausted h k = h

pub slice_of-in_range :
    (bytes : Bytes) (start end : ℕ) (e : Engine)
    → start ≤ end
    → end ≤ length bytes
    → slice_of bytes start end e ≡ parsed e (slice bytes start end)
slice_of-in_range bytes start end e h k = ground arith

pub Ends-slice_of {ℓ} :
    {B : Type ℓ} (Q : Engine → B → Type 0) (bytes : Bytes) (start end : ℕ) (f : Bytes → Parser B)
    (e : Engine)
    → start ≤ end
    → end ≤ length bytes
    → Ends Q (f (slice bytes start end) e)
    → Ends Q ((slice_of bytes start end >>= f) e)
Ends-slice_of Q bytes start end f e h k next =
    rw (slice_of-in_range bytes start end e h k, ◌>>=◌) next

pub byte_is-some :
    (input : Bytes) (at byte : ℕ) → byte_is input at byte ≡ true → get_elem? input at ≡ some byte
byte_is-some input at byte h = ground arith

pub byte_is-in_range :
    (input : Bytes) (at byte : ℕ) → byte_is input at byte ≡ true → at < length input
byte_is-in_range input at byte h = get_elem?-some input at byte (byte_is-some input at byte h)

-- A test, whichever way it goes.
pub Ends-if {ℓ} :
    {A : Type ℓ} (Q : Engine → A → Type 0) (test : Bool) (m k : Parser A) (e : Engine)
    → (test ≡ true → Ends Q (m e))
    → (test ≡ false → Ends Q (k e))
    → Ends Q ((if test then m else k) e)
Ends-if Q true m k e yes_test no_test = yes_test refl
Ends-if Q false m k e yes_test no_test = no_test refl
