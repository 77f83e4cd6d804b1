-- ===== src/Config/Tail.antt =====
-- config/tail.rs: the bytes that must follow a separator's first byte.
pub mod Laws
use coseva.Prelude.{
  ℕ, ◌+◌, Bool, [], ◌∷◌, ltb, leb, ◌==◌, ◌&&◌, if◌then◌else◌, Bytes, length, take, bytes_eq,
}

-- `bytes: [u8; 3]` as three fields
pub record Tail : Type 0 where
  pub byte0 : ℕ
  pub byte1 : ℕ
  pub byte2 : ℕ
  pub len : ℕ

-- `Tail::MAX`, `Tail::EMPTY` and `Tail::UNUSABLE`
abbrev pub max_tail : ℕ
max_tail = 3

abbrev pub empty_tail : Tail
empty_tail = record { byte0 = 0; byte1 = 0; byte2 = 0; len = 0 }

abbrev pub unusable_len : ℕ
unusable_len = 255

-- `Tail::of`, whose argument is the whole separator
unfoldable pub tail_of : Bytes → Tail
tail_of [] = record empty_tail { len = unusable_len }
tail_of (lead ∷ []) = empty_tail
tail_of (lead ∷ a ∷ []) = record { byte0 = a; byte1 = 0; byte2 = 0; len = 1 }
tail_of (lead ∷ a ∷ b ∷ []) = record { byte0 = a; byte1 = b; byte2 = 0; len = 2 }
tail_of (lead ∷ a ∷ b ∷ c ∷ []) = record { byte0 = a; byte1 = b; byte2 = c; len = 3 }
tail_of (lead ∷ a ∷ b ∷ c ∷ d ∷ more) = record empty_tail { len = unusable_len }

abbrev pub is_empty_tail : Tail → Bool
is_empty_tail t = t.len == 0

abbrev pub unusable : Tail → Bool
unusable t = ltb max_tail t.len

abbrev pub width : Tail → ℕ
width t = t.len + 1

abbrev pub as_slice : Tail → Bytes
as_slice t = take (if unusable t then 0 else t.len) (t.byte0 ∷ t.byte1 ∷ t.byte2 ∷ [])

-- `Tail::confirms`
unfoldable pub confirms : Tail → Bytes → Bool
confirms t after_lead =
    leb (length (as_slice t)) (length after_lead)
    && bytes_eq (take (length (as_slice t)) after_lead) (as_slice t)
