-- ===== src/Emit/Unquoted.antt =====
-- crates/coseva/src/emit.rs: `write_unquoted_escaped_field`, for the dialects that escape rather
-- than quote, and what it writes.
use coseva.Prelude.{
  List, ℕ, ◌+◌, ◌-◌, Bool, true, false, [], ◌∷◌, ◌++◌, Option, none, some, ◌≡◌, refl, sym, ap, ap₂,
  ◌∙◌, ◌&&◌, ◌||◌, ◌==◌, if◌then◌else◌, Bytes, length, take, drop, starts_with, arith, append_assoc,
  Option-cases, inl, inr, take-append, length-append,
}
use coseva.Search.{contains}
use coseva.Config.Options.{Escape, mysql_escape, terminator}
use coseva.Config.Dialect.{Dialect}
use coseva.Emit.Scan.{bom, starts_comment}
use coseva.Emit.Writer.{Writer, written, ◌>>◌, extend}

abbrev pub is_mysql : Escape → Bool
is_mysql mysql_escape = true
is_mysql _ = false

-- The letter that stands for a control byte in MySQL's alphabet.
abbrev pub mysql_letter : ℕ → Option ℕ
mysql_letter byte =
    if byte == 0
    then some b'0'
    else if byte == 0x08
    then some b'b'
    else if byte == b'\n'
    then some b'n'
    else if byte == b'\r'
    then some b'r'
    else if byte == b'\t'
    then some b't'
    else if byte == 0x1A
    then some b'Z'
    else none

-- the `match byte` of the loop: what is written behind the escape, if anything is
unfoldable pub escaped : Dialect → ℕ → ℕ → Option ℕ
escaped d escape byte = elim (if is_mysql d.escape then mysql_letter byte else none) [
  | some letter ↦ some letter
  | none ↦
      if byte == escape
      then some escape
      else if byte == d.delimiter || byte == terminator d.record_ending || byte == d.quote
      then some byte
      else none
]

-- `&field[from..to]`
abbrev slice : ℕ → ℕ → Bytes → Bytes
slice from to xs = take (to - from) (drop from xs)

-- The loop from `index`, with `rest` the bytes of `field` from there and `start` the first byte
-- that is not yet written.
escape_loop : Dialect → ℕ → Bytes → ℕ → ℕ → Bytes → Writer (Unit {0})
unfolding escaped
escape_loop d escape field start index [] = extend (drop start field)
escape_loop d escape field start index (byte ∷ rest) = elim (escaped d escape byte) [
  | none ↦ escape_loop d escape field start (index + 1) rest
  | some letter ↦ do
    extend (slice start index field)
    extend (escape ∷ letter ∷ [])
    escape_loop d escape field (index + 1) (index + 1) rest
]

-- A leading BOM or comment byte of a first field is escaped whatever it is; the flag is the test
-- `is_first && (…)`.
leading_escaped : Bool → Dialect → ℕ → Bytes → Writer (Unit {0})
unfolding escape_loop
leading_escaped true d escape (byte ∷ rest) = do
  extend (escape ∷ byte ∷ [])
  escape_loop d escape (byte ∷ rest) 1 1 rest
leading_escaped true d escape [] = escape_loop d escape [] 0 0 []
leading_escaped false d escape field = escape_loop d escape field 0 0 field

unfoldable pub write_unquoted_escaped_field : Dialect → ℕ → Bytes → Bool → Writer (Unit {0})
unfolding leading_escaped
write_unquoted_escaped_field d escape field is_first =
    leading_escaped (is_first && (starts_with field bom || starts_comment d.comment field)) d escape
      field

-- what stands for one byte
abbrev pub spell : ℕ → ℕ → Option ℕ → Bytes
spell escape byte none = byte ∷ []
spell escape byte (some letter) = escape ∷ letter ∷ []

abbrev pub escape_of : Dialect → ℕ → ℕ → Bytes
escape_of d escape byte = spell escape byte (escaped d escape byte)

abbrev pub escape_all : Dialect → ℕ → Bytes → Bytes
escape_all d escape [] = []
escape_all d escape (byte ∷ rest) = escape_of d escape byte ++ escape_all d escape rest

abbrev escaped_field : Dialect → ℕ → Bytes → Bool → Bytes
escaped_field d escape [] lead = []
escaped_field d escape (byte ∷ rest) true = escape ∷ byte ∷ escape_all d escape rest
escaped_field d escape (byte ∷ rest) false = escape_all d escape (byte ∷ rest)

-- MySQL's alphabet: the control bytes with the letters that stand for them.
abbrev alphabet : List (ℕ × ℕ)
alphabet =
    (0, b'0') ∷ (0x08, b'b') ∷ (b'\n', b'n') ∷ (b'\r', b'r') ∷ (b'\t', b't') ∷ (0x1A, b'Z') ∷ []

abbrev letter_of : List (ℕ × ℕ) → ℕ → Option ℕ
letter_of [] byte = none
letter_of (entry ∷ entries) byte =
    let later = letter_of entries byte in if entry.0 == byte then some entry.1 else later

-- the bytes that stand behind an escape as they are
abbrev structure : Dialect → ℕ → Bytes
structure d escape = escape ∷ d.delimiter ∷ terminator d.record_ending ∷ d.quote ∷ []

abbrev pub written_byte : Dialect → ℕ → ℕ → Bytes
written_byte d escape byte = elim (letter_of (if is_mysql d.escape then alphabet else []) byte) [
  | some letter ↦ escape ∷ letter ∷ []
  | none ↦ if contains (structure d escape) byte then escape ∷ byte ∷ [] else byte ∷ []
]

-- A field as it is written; the flag is whether its first byte is escaped whatever it is.
abbrev pub written_field : Dialect → ℕ → Bytes → Bool → Bytes
written_field d escape [] lead = []
written_field d escape (byte ∷ rest) true = escape ∷ byte ∷ written_field d escape rest false
written_field d escape (byte ∷ rest) false =
    written_byte d escape byte ++ written_field d escape rest false

mysql-written : (byte : ℕ) → mysql_letter byte ≡ letter_of alphabet byte
mysql-written byte = ground arith

plain-written :
    (d : Dialect) (escape byte : ℕ)
    → spell escape byte (
        if byte == escape
        then some escape
        else if byte == d.delimiter || byte == terminator d.record_ending || byte == d.quote
        then some byte
        else none)
      ≡ (if contains (structure d escape) byte then escape ∷ byte ∷ [] else byte ∷ [])
plain-written d escape byte = ground arith

same_letter :
    (mysql : Bool) (byte : ℕ)
    → (if mysql then mysql_letter byte else none) ≡ letter_of (if mysql then alphabet else []) byte
same_letter true byte = mysql-written byte
same_letter false byte = refl

by_letter :
    (d : Dialect) (escape byte : ℕ) (letter : Option ℕ)
    → spell escape byte (elim letter [
      | some l ↦ some l
      | none ↦
          if byte == escape
          then some escape
          else if byte == d.delimiter || byte == terminator d.record_ending || byte == d.quote
          then some byte
          else none
    ])
      ≡ (elim letter [
        | some l ↦ escape ∷ l ∷ []
        | none ↦ if contains (structure d escape) byte then escape ∷ byte ∷ [] else byte ∷ []
      ])
by_letter d escape byte none = plain-written d escape byte
by_letter d escape byte (some letter) = refl

escape_of-written :
    (d : Dialect) (escape byte : ℕ) → escape_of d escape byte ≡ written_byte d escape byte
unfolding escaped
escape_of-written d escape byte =
    by_letter d escape byte (if is_mysql d.escape then mysql_letter byte else none)
    ∙ ap
        (λ letter. elim letter [
          | some l ↦ escape ∷ l ∷ []
          | none ↦ if contains (structure d escape) byte then escape ∷ byte ∷ [] else byte ∷ []
        ])
        (same_letter (is_mysql d.escape) byte)

escape_all-written :
    (d : Dialect) (escape : ℕ) (field : Bytes)
    → escape_all d escape field ≡ written_field d escape field false
escape_all-written d escape [] = refl
escape_all-written d escape (byte ∷ rest) =
    ap₂ ◌++◌ (escape_of-written d escape byte) (escape_all-written d escape rest)

escaped_field-written :
    (d : Dialect) (escape : ℕ) (field : Bytes) (lead : Bool)
    → escaped_field d escape field lead ≡ written_field d escape field lead
escaped_field-written d escape [] lead = refl
escaped_field-written d escape (byte ∷ rest) true =
    ap (λ t. escape ∷ byte ∷ t) (escape_all-written d escape rest)
escaped_field-written d escape (byte ∷ rest) false = escape_all-written d escape (byte ∷ rest)

-- The loop at a point inside the field: `pending` is read and not yet written.
drop_at :
    (done pending rest : Bytes) → drop (length done) (done ++ (pending ++ rest)) ≡ pending ++ rest
drop_at [] pending rest = refl
drop_at (x ∷ done) pending rest = drop_at done pending rest

slice_pending :
    (done pending rest : Bytes)
    → slice (length done) (length done + length pending) (done ++ (pending ++ rest)) ≡ pending
slice_pending done pending rest =
    let n : length done + length pending - length done ≡ length pending = omega arith in
    ap₂ take n (drop_at done pending rest) ∙ take-append pending rest

module _ (d : Dialect) (escape : ℕ) where
  loop_none :
      (field : Bytes) (start index byte : ℕ) (rest : Bytes)
      → escaped d escape byte ≡ none
      → escape_loop d escape field start index (byte ∷ rest)
        ≡ escape_loop d escape field start (index + 1) rest
  unfolding escape_loop
  loop_none field start index byte rest e = rw (e, escape_loop)

  loop_some :
      (field : Bytes) (start index byte letter : ℕ) (rest out : Bytes)
      → escaped d escape byte ≡ some letter
      → escape_loop d escape field start index (byte ∷ rest) out
        ≡ escape_loop d escape field
            (index + 1)
            (index + 1)
            rest
            ((out ++ slice start index field) ++ (escape ∷ letter ∷ []))
  unfolding escape_loop
  loop_some field start index byte letter rest out e = rw (e, escape_loop)

  escape_all-none :
      (byte : ℕ) (rest : Bytes)
      → escaped d escape byte ≡ none
      → escape_all d escape (byte ∷ rest) ≡ byte ∷ escape_all d escape rest
  escape_all-none byte rest e = ap (λ t. spell escape byte t ++ escape_all d escape rest) e

  escape_all-some :
      (byte letter : ℕ) (rest : Bytes)
      → escaped d escape byte ≡ some letter
      → escape_all d escape (byte ∷ rest) ≡ escape ∷ letter ∷ escape_all d escape rest
  escape_all-some byte letter rest e = ap (λ t. spell escape byte t ++ escape_all d escape rest) e

  loop_end :
      (field out : Bytes) (start index : ℕ)
      → escape_loop d escape field start index [] out ≡ written (out ++ drop start field) tt
  unfolding escape_loop
  loop_end field out start index = refl

  escape_loop-all :
      (rest field done pending out : Bytes) (start index : ℕ)
      → field ≡ done ++ (pending ++ rest)
      → start ≡ length done
      → index ≡ length done + length pending
      → escape_loop d escape field start index rest out
        ≡ written (out ++ (pending ++ escape_all d escape rest)) tt
  escape_loop-all [] field done pending out start index ef es ei =
      loop_end field out start index
      ∙ ap (λ t. written (out ++ t) tt) (ap₂ drop es ef ∙ drop_at done pending [])
  escape_loop-all (byte ∷ rest) field done pending out start index ef es ei =
      elim (Option-cases (escaped d escape byte)) [
        | inl e ↦
            ap (λ m. m out) (loop_none field start index byte rest e)
            ∙ escape_loop-all rest field done (pending ++ (byte ∷ [])) out start (index + 1)
                (ef ∙ ap (λ t. done ++ t) (sym (append_assoc pending (byte ∷ []) rest))) es
                (omega (arith, length-append pending (byte ∷ [])))
            ∙ ap (λ t. written (out ++ t) tt)
                (append_assoc pending (byte ∷ []) (escape_all d escape rest)
                  ∙ ap (λ t. pending ++ t) (sym (escape_all-none byte rest e)))
        | inr (letter, e) ↦
            let cut : slice start index field ≡ pending =
              ap (λ t. slice t index field) es
              ∙ ap (λ t. slice (length done) t field) ei
              ∙ ap (slice (length done) (length done + length pending)) ef
              ∙ slice_pending done pending (byte ∷ rest) in
            loop_some field start index byte letter rest out e
            ∙ escape_loop-all rest field (done ++ (pending ++ (byte ∷ []))) []
                ((out ++ slice start index field) ++ (escape ∷ letter ∷ [])) (index + 1) (index + 1)
                (ef
                  ∙ ap (λ t. done ++ t) (sym (append_assoc pending (byte ∷ []) rest))
                  ∙ sym (append_assoc done (pending ++ (byte ∷ [])) rest))
                (omega (
                  arith,
                  length-append done (pending ++ (byte ∷ [])),
                  length-append pending (byte ∷ []),
                ))
                (omega (
                  arith,
                  length-append done (pending ++ (byte ∷ [])),
                  length-append pending (byte ∷ []),
                ))
            ∙ ap (λ t. written t tt)
                (ap (λ t. ((out ++ t) ++ (escape ∷ letter ∷ [])) ++ escape_all d escape rest) cut
                  ∙ append_assoc (out ++ pending) (escape ∷ letter ∷ []) (escape_all d escape rest)
                  ∙ append_assoc out pending (escape ∷ letter ∷ escape_all d escape rest)
                  ∙ ap (λ t. out ++ (pending ++ t)) (sym (escape_all-some byte letter rest e)))
      ]

  leading_escaped-field :
      (lead : Bool) (field out : Bytes)
      → leading_escaped lead d escape field out
        ≡ written (out ++ escaped_field d escape field lead) tt
  unfolding leading_escaped
  leading_escaped-field true [] out = escape_loop-all [] [] [] [] out 0 0 refl refl refl
  leading_escaped-field true (byte ∷ rest) out =
      escape_loop-all rest (byte ∷ rest) (byte ∷ []) [] (out ++ (escape ∷ byte ∷ [])) 1 1 refl refl
        refl
      ∙ ap (λ t. written t tt) (append_assoc out (escape ∷ byte ∷ []) (escape_all d escape rest))
  leading_escaped-field false [] out = escape_loop-all [] [] [] [] out 0 0 refl refl refl
  leading_escaped-field false (byte ∷ rest) out =
      escape_loop-all (byte ∷ rest) (byte ∷ rest) [] [] out 0 0 refl refl refl

  pub write_unquoted_escaped_field-field :
      (field : Bytes) (is_first : Bool) (out : Bytes)
      → write_unquoted_escaped_field d escape field is_first out
        ≡ written
            (out
              ++ written_field d escape field
                  (is_first && (starts_with field bom || starts_comment d.comment field)))
            tt
  unfolding write_unquoted_escaped_field
  write_unquoted_escaped_field-field field is_first out =
      let lead = is_first && (starts_with field bom || starts_comment d.comment field) in
      leading_escaped-field lead field out
      ∙ ap (λ t. written (out ++ t) tt) (escaped_field-written d escape field lead)
