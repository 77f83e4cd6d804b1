-- ===== src/Emit/Writer.antt =====
-- crates/coseva/src/emit.rs: `ByteSink` for `Vec<u8>` as a state monad over the bytes written so
-- far. A refusal keeps the buffer as the code leaves it; a panic has no buffer.
pub mod Total
pub mod Orderly
use coseva.Prelude.{ℕ, [], ◌∷◌, ◌++◌, ◌≡◌, refl, sym, ◌∙◌, Bytes, length, take}
use coseva.Error.{Error}

pub data Written {ℓ} (A : Type ℓ) : Type ℓ where
  written : Bytes → A → Written A
  refused : Bytes → Error → Written A
  panicked : Written A

abbrev pub Writer {ℓ} : Type ℓ → Type ℓ
Writer A = Bytes → Written A

infixl 5 ◌>>=◌ ◌>>◌
abbrev pub ◌>>=◌ {ℓ κ} : {A : Type ℓ} {B : Type κ} → Writer A → (A → Writer B) → Writer B
◌>>=◌ m f out = elim (m out) [
  | written out' a ↦ f a out'
  | refused out' e ↦ refused out' e
  | panicked ↦ panicked
]

abbrev pub ◌>>◌ {ℓ} : {B : Type ℓ} → Writer (Unit {0}) → Writer B → Writer B
m >> k = m >>= λ _. k

abbrev pub return {ℓ} : {A : Type ℓ} → A → Writer A
return a out = written out a

-- `extend`, `push`, `len` and `truncate` of `ByteSink`
abbrev pub extend : Bytes → Writer (Unit {0})
extend bytes out = written (out ++ bytes) tt

abbrev pub push : ℕ → Writer (Unit {0})
push byte = extend (byte ∷ [])

abbrev pub output_len : Writer ℕ
output_len out = written out (length out)

abbrev pub refuse {ℓ} : {A : Type ℓ} → Error → Writer A
refuse e out = refused out e

-- `unreachable!`
abbrev pub unreachable {ℓ} : {A : Type ℓ} → Writer A
unreachable out = panicked

-- `if let Err(error) = result { output.truncate(start); return Err(error) }`
abbrev pub truncate_on_error {ℓ} : {A : Type ℓ} → ℕ → Writer A → Writer A
truncate_on_error start m out = elim (m out) [
  | written out' a ↦ written out' a
  | refused out' e ↦ refused (take start out') e
  | panicked ↦ panicked
]

-- A step whose outcome is known passes on its buffer and its value, or stops.
pub >>=-written {ℓ κ} :
    {A : Type ℓ} {B : Type κ} (m : Writer A) (f : A → Writer B) {out out' : Bytes} {a : A}
    → m out ≡ written out' a
    → (m >>= f) out ≡ f a out'
>>=-written m f e = rw (e, ◌>>=◌)

pub >>=-refused {ℓ κ} :
    {A : Type ℓ} {B : Type κ} (m : Writer A) (f : A → Writer B) {out out' : Bytes} {e : Error}
    → m out ≡ refused out' e
    → (m >>= f) out ≡ refused out' e
>>=-refused m f e = rw (e, ◌>>=◌)

pub >>=-panicked {ℓ κ} :
    {A : Type ℓ} {B : Type κ} (m : Writer A) (f : A → Writer B) {out : Bytes}
    → m out ≡ panicked
    → (m >>= f) out ≡ panicked
>>=-panicked m f e = rw (e, ◌>>=◌)

bind_ext {ℓ κ} :
    {A : Type ℓ} {B : Type κ} (w : Written A) (f g : A → Writer B)
    → ((a : A) (out : Bytes) → f a out ≡ g a out)
    → (m m' : Writer A) (out : Bytes) → m out ≡ w
    → m' out ≡ w
    → (m >>= f) out ≡ (m' >>= g) out
bind_ext (written out' a) f g h m m' out p q =
    >>=-written m f p ∙ h a out' ∙ sym (>>=-written m' g q)
bind_ext (refused out' e) f g h m m' out p q = >>=-refused m f p ∙ sym (>>=-refused m' g q)
bind_ext panicked f g h m m' out p q = >>=-panicked m f p ∙ sym (>>=-panicked m' g q)

-- Equal steps, each followed by equal steps.
pub >>=-ext {ℓ κ} :
    {A : Type ℓ} {B : Type κ} (m m' : Writer A) (f g : A → Writer B) (out : Bytes)
    → m out ≡ m' out
    → ((a : A) (out' : Bytes) → f a out' ≡ g a out')
    → (m >>= f) out ≡ (m' >>= g) out
>>=-ext m m' f g out p h = bind_ext (m' out) f g h m m' out p refl

assoc_at {ℓ κ ι} :
    {A : Type ℓ} {B : Type κ} {C : Type ι} (w : Written A) (f : A → Writer B) (g : B → Writer C)
    (m : Writer A) (out : Bytes)
    → m out ≡ w
    → ((m >>= f) >>= g) out ≡ (m >>= λ a. f a >>= g) out
assoc_at (written out' a) f g m out e = rw (e, ◌>>=◌)
assoc_at (refused out' x) f g m out e = rw (e, ◌>>=◌)
assoc_at panicked f g m out e = rw (e, ◌>>=◌)

pub >>=-assoc {ℓ κ ι} :
    {A : Type ℓ} {B : Type κ} {C : Type ι} (m : Writer A) (f : A → Writer B) (g : B → Writer C)
    (out : Bytes)
    → ((m >>= f) >>= g) out ≡ (m >>= λ a. f a >>= g) out
>>=-assoc m f g out = assoc_at (m out) f g m out refl

pub >>=-cong {ℓ κ} :
    {A : Type ℓ} {B : Type κ} (m m' : Writer A) (f : A → Writer B) {out out' : Bytes}
    → m out ≡ m' out'
    → (m >>= f) out ≡ (m' >>= f) out'
>>=-cong m m' f e = rw (e, ◌>>=◌)

pub truncate-cong {ℓ} :
    {A : Type ℓ} (s : ℕ) (m m' : Writer A) {out out' : Bytes}
    → m out ≡ m' out'
    → truncate_on_error s m out ≡ truncate_on_error s m' out'
truncate-cong s m m' e = rw (e, truncate_on_error)

pub truncate-written {ℓ} :
    {A : Type ℓ} (s : ℕ) (m : Writer A) {out out' : Bytes} {a : A}
    → m out ≡ written out' a
    → truncate_on_error s m out ≡ m out
truncate-written s m e = rw (e, truncate_on_error)

pub truncate-refused {ℓ} :
    {A : Type ℓ} (s : ℕ) (m : Writer A) {out out' : Bytes} {e : Error}
    → m out ≡ refused out' e
    → truncate_on_error s m out ≡ refused (take s out') e
truncate-refused s m e = rw (e, truncate_on_error)
