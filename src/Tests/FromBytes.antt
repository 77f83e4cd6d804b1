-- ===== src/Tests/FromBytes.antt =====
-- The theorem on the unsigned parsers, for a `u8`.
use coseva.Prelude.{[], ◌∷◌, ◌≡◌, ◌≢◌, ◌↔◌, ◌≤◌, All, IsByte, Bytes, arith}
use coseva.Error.{ok}
use coseva.FromBytes.{parse_unsigned, strip_plus}
use coseva.FromBytes.Loops.{IsDigit, decimal}
use coseva.FromBytes.Range.{parse_unsigned_iff}

-- `+255`
abbrev top : Bytes
top = b'+' ∷ b'2' ∷ b'5' ∷ b'5' ∷ []

top-bytes : All IsByte top
top-bytes = ground arith

parse_unsigned_iff_example :
    (parse_unsigned 255 top ≡ ok 255)
    ↔ (strip_plus top ≢ [])
      × All IsDigit (strip_plus top)
      × (decimal (strip_plus top) 0 ≡ 255)
      × (255 ≤ 255)
parse_unsigned_iff_example = parse_unsigned_iff 255 255 top (omega arith) top-bytes
