-- ===== src/Tests/Config.antt =====
-- The theorems on the options and the dialects, at concrete values.
use coseva.Prelude.{
  true, false, [], ◌∷◌, ◌++◌, some, ◌≡◌, ◌↔◌, ◌≤◌, ◌<◌, ◌==◌, if◌then◌else◌, Bytes, arith,
}
use coseva.Config.Tail.{tail_of, confirms, width, unusable}
use coseva.Config.Tail.Laws.{confirms-tail_of, unusable-tail_of}
use coseva.Config.Options.{
  Recovery, whitespace_from_bits, whitespace_bits, field_whitespace, recovery_from_bits,
  quoting_flag, any_backslash_flag, set_flag, contains_flag,
}
use coseva.Config.Options.Bits.{
  quoting, any_backslash, whitespace_from_bits-bits, recovery_from_bits_iff, contains_flag-set_flag,
}

-- the separator `||`
confirms-tail_of_example :
    (width (tail_of (b'|' ∷ b'|' ∷ [])) ≡ 2)
    × ((confirms (tail_of (b'|' ∷ b'|' ∷ [])) (b'|' ∷ b'x' ∷ []) ≡ true)
        ↔ ((rest : Bytes) × (b'|' ∷ b'x' ∷ [] ≡ (b'|' ∷ []) ++ rest)))
confirms-tail_of_example = confirms-tail_of b'|' (b'|' ∷ []) (b'|' ∷ b'x' ∷ []) (omega arith)

unusable-tail_of_example : (unusable (tail_of (b'|' ∷ b'|' ∷ [])) ≡ false) ↔ (1 ≤ 2) × (2 ≤ 4)
unusable-tail_of_example = unusable-tail_of (b'|' ∷ b'|' ∷ [])

whitespace_from_bits-bits_example :
    (whitespace_from_bits 5 ≡ some field_whitespace) ↔ (5 ≡ whitespace_bits field_whitespace)
whitespace_from_bits-bits_example = whitespace_from_bits-bits 5 field_whitespace (omega arith)

abbrev strict : Recovery
strict = record { flags = 0 }

recovery_from_bits_iff_example :
    (recovery_from_bits 0 ≡ some strict) ↔ (0 < 16) × (strict.flags ≡ 0)
recovery_from_bits_iff_example = recovery_from_bits_iff 0 strict (omega arith)

contains_flag-set_flag_example :
    contains_flag (set_flag strict quoting_flag true) any_backslash_flag
    ≡ (if quoting_flag == any_backslash_flag then true else contains_flag strict any_backslash_flag)
contains_flag-set_flag_example =
    contains_flag-set_flag strict quoting_flag any_backslash_flag true (omega arith) quoting
      any_backslash
