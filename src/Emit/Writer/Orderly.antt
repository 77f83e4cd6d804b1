-- ===== src/Emit/Writer/Orderly.antt =====
-- Writers that do not panic and leave what stood in the buffer, whether they write or refuse.
use coseva.Prelude.{
  Bool, true, false, [], ◌++◌, append-nil, append_assoc, ◌≡◌, sym, ap, ◌∙◌, Bytes, if◌then◌else◌,
}
use coseva.Error.{Error}
use coseva.Emit.Writer.{
  Writer, Written, written, refused, ◌>>=◌, return, refuse, >>=-written, >>=-refused,
}
use coseva.Emit.Writer.Total.{IsTotal}

-- the outcomes of an orderly writer
pub data Kept {ℓ} {A : Type ℓ} (out : Bytes) (w : Written A) : Type ℓ where
  kept_written : (added : Bytes) (a : A) → w ≡ written (out ++ added) a → Kept out w
  kept_refused : (added : Bytes) (e : Error) → w ≡ refused (out ++ added) e → Kept out w

abbrev pub IsOrderly {ℓ} : {A : Type ℓ} → Writer A → Type ℓ
IsOrderly m = (out : Bytes) → Kept out (m out)

pub total-IsOrderly : (m : Writer (Unit {0})) → IsTotal m → IsOrderly m
total-IsOrderly m p out = let (s, e) = p out in kept_written s tt e

pub refuse-IsOrderly {ℓ} : {A : Type ℓ} (e : Error) → IsOrderly {A = A} (refuse e)
refuse-IsOrderly e out = kept_refused [] e (ap (λ o. refused o e) (sym (append-nil out)))

pub return-IsOrderly {ℓ} : {A : Type ℓ} (a : A) → IsOrderly (return a)
return-IsOrderly a out = kept_written [] a (ap (λ o. written o a) (sym (append-nil out)))

pub if-IsOrderly {ℓ} :
    {A : Type ℓ} (b : Bool) (m k : Writer A)
    → IsOrderly m
    → IsOrderly k
    → IsOrderly (if b then m else k)
if-IsOrderly true m k p q = p
if-IsOrderly false m k p q = q

behind {ℓ} :
    {A : Type ℓ} (out s : Bytes) (w w' : Written A) → w' ≡ w → Kept (out ++ s) w → Kept out w'
behind out s w w' p (kept_written t b e) =
    kept_written (s ++ t) b (p ∙ e ∙ ap (λ o. written o b) (append_assoc out s t))
behind out s w w' p (kept_refused t x e) =
    kept_refused (s ++ t) x (p ∙ e ∙ ap (λ o. refused o x) (append_assoc out s t))

bind-Kept {ℓ κ} :
    {A : Type ℓ} {B : Type κ} (m : Writer A) (f : A → Writer B) (out : Bytes)
    → Kept out (m out)
    → ((a : A) → IsOrderly (f a))
    → Kept out ((m >>= f) out)
bind-Kept m f out (kept_written s a e) q =
    behind out s (f a (out ++ s)) _ (>>=-written m f e) (q a (out ++ s))
bind-Kept m f out (kept_refused s x e) q = kept_refused s x (>>=-refused m f e)

pub >>=-IsOrderly {ℓ κ} :
    {A : Type ℓ} {B : Type κ} (m : Writer A) (f : A → Writer B)
    → IsOrderly m
    → ((a : A) → IsOrderly (f a))
    → IsOrderly (m >>= f)
>>=-IsOrderly m f p q out = bind-Kept m f out (p out) q
