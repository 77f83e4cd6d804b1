-- ===== src/Emit/Writer/Total.antt =====
-- Writers that neither refuse nor panic, and only add to the buffer.
use coseva.Prelude.{
  Bool, true, false, [], ◌++◌, append-nil, append_assoc, ◌≡◌, refl, sym, ap, ◌∙◌, Bytes,
  if◌then◌else◌,
}
use coseva.Emit.Writer.{Writer, written, ◌>>◌, return, extend, >>=-written}

abbrev pub IsTotal : Writer (Unit {0}) → Type 0
IsTotal m = (out : Bytes) → (added : Bytes) × (m out ≡ written (out ++ added) tt)

pub extend-IsTotal : (bytes : Bytes) → IsTotal (extend bytes)
extend-IsTotal bytes out = (bytes, refl)

pub return-IsTotal : IsTotal (return tt)
return-IsTotal out = ([], ap (λ o. written o tt) (sym (append-nil out)))

pub if-IsTotal :
    (b : Bool) (m k : Writer (Unit {0})) → IsTotal m → IsTotal k → IsTotal (if b then m else k)
if-IsTotal true m k p q = p
if-IsTotal false m k p q = q

pub >>-IsTotal : (m k : Writer (Unit {0})) → IsTotal m → IsTotal k → IsTotal (m >> k)
>>-IsTotal m k p q out =
    let (s, e) = p out in
    let (t, f) = q (out ++ s) in
    (s ++ t, >>=-written m (λ _. k) e ∙ f ∙ ap (λ o. written o tt) (append_assoc out s t))
