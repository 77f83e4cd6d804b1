-- ===== src/Config/Equality.antt =====
-- The derived `PartialEq` of `Dialect` and of what it is made of.
use coseva.Prelude.{ℕ, Bool, true, false, Option, none, some, ◌&&◌, ◌==◌, ◌≡◌, arith}
use coseva.Config.Tail.{Tail}
use coseva.Config.Options.{
  Escape, double_quote, backslash, mysql_escape, unquoted, RecordEnding, newline, crlf, ending_byte,
}
use coseva.Config.Dialect.{Dialect}

abbrev pub tail_eq : Tail → Tail → Bool
tail_eq s t = s.byte0 == t.byte0 && s.byte1 == t.byte1 && s.byte2 == t.byte2 && s.len == t.len

abbrev pub ending_eq : RecordEnding → RecordEnding → Bool
ending_eq newline newline = true
ending_eq crlf crlf = true
ending_eq (ending_byte a) (ending_byte b) = a == b
ending_eq _ _ = false

abbrev pub escape_eq : Escape → Escape → Bool
escape_eq double_quote double_quote = true
escape_eq (backslash a) (backslash b) = a == b
escape_eq mysql_escape mysql_escape = true
escape_eq (unquoted a) (unquoted b) = a == b
escape_eq _ _ = false

abbrev pub comment_eq : Option ℕ → Option ℕ → Bool
comment_eq none none = true
comment_eq (some a) (some b) = a == b
comment_eq _ _ = false

unfoldable pub dialect_eq : Dialect → Dialect → Bool
dialect_eq c d =
    c.delimiter == d.delimiter
    && c.quote == d.quote
    && ending_eq c.record_ending d.record_ending
    && escape_eq c.escape d.escape
    && comment_eq c.comment d.comment
    && tail_eq c.delimiter_tail d.delimiter_tail
    && tail_eq c.ending_tail d.ending_tail

tail_eq→eq : (s t : Tail) → tail_eq s t ≡ true → s ≡ t
tail_eq→eq s t h = ground arith

ending_eq→eq : (a b : RecordEnding) → ending_eq a b ≡ true → a ≡ b
ending_eq→eq a b h = ground arith

escape_eq→eq : (a b : Escape) → escape_eq a b ≡ true → a ≡ b
escape_eq→eq a b h = ground arith

comment_eq→eq : (a b : Option ℕ) → comment_eq a b ≡ true → a ≡ b
comment_eq→eq a b h = ground arith

pub dialect_eq→eq : (c d : Dialect) → dialect_eq c d ≡ true → c ≡ d
unfolding dialect_eq
dialect_eq→eq c d h = ground (
  arith,
  ending_eq→eq c.record_ending d.record_ending,
  escape_eq→eq c.escape d.escape,
  comment_eq→eq c.comment d.comment,
)
