-- ===== src/Error.antt =====
-- crates/coseva/src/error: `ErrorKind`, `Location`, `Error`, and the `Result` that the code returns.
-- The payloads that belong to the standard library (`io::Error`, `Utf8Error`, a boxed source) are
-- left out of their constructors.
use coseva.Prelude.{ℕ, Bool, Option, none, String, not, ◌==◌}

pub data ErrorKind : Type 0 where
  io : ErrorKind
  invalid_utf8 : ErrorKind
  empty_field : ErrorKind
  invalid_digit : ErrorKind
  out_of_range : ErrorKind
  invalid_value : ErrorKind
  configuration : ErrorKind
  missing_header : ErrorKind
  duplicate_header : ErrorKind
  decode : ErrorKind
  serde : ErrorKind
  rejected_bom : ErrorKind
  unterminated_quoted_field : ErrorKind
  unexpected_quote : ErrorKind
  unexpected_byte_after_quote : ℕ → ErrorKind
  invalid_escape : ℕ → ErrorKind
  invalid_record_ending : ℕ → ErrorKind
  record_too_large : ℕ → ErrorKind
  field_too_large : ℕ → ErrorKind
  too_many_fields : ℕ → ErrorKind
  field_count_mismatch : ℕ → ℕ → ErrorKind
  parser_failed : ErrorKind
  encode : ErrorKind
  emitter_failed : ErrorKind
  unterminated_record : ErrorKind
  location_overflow : ErrorKind
  source_mismatch : ErrorKind
  record_out_of_range : ℕ → ErrorKind
  invalid_index : ErrorKind

pub record Location : Type 0 where
  pub byte : ℕ
  pub line : ℕ
  pub record_index : ℕ
  pub field : ℕ

-- `Location::UNKNOWN` and `Location::START`
abbrev pub unknown_location : Location
unknown_location = record { byte = 0; line = 0; record_index = 0; field = 0 }

abbrev pub start_location : Location
start_location = record { byte = 0; line = 1; record_index = 0; field = 0 }

pub is_known : Location → Bool
is_known l = not (l.line == 0)

pub data ErrorSource : Type 0 where
  no_source : ErrorSource
  io_source : ErrorSource
  detail : String → ErrorSource
  custom : ErrorSource

pub record Error : Type 0 where
  pub kind : ErrorKind
  pub location : Location
  pub field_name : Option String
  pub source : ErrorSource

abbrev pub from_parts : ErrorKind → Location → ErrorSource → Error
from_parts k l s = record { kind = k; location = l; field_name = none; source = s }

-- `Error::new` and `Error::detailed`
abbrev pub new_error : ErrorKind → Location → Error
new_error k l = from_parts k l ErrorSource.no_source

abbrev pub detailed : ErrorKind → String → Error
detailed k text = from_parts k unknown_location (ErrorSource.detail text)

pub data Result {ℓ κ} (E : Type ℓ) (A : Type κ) : Type (ℓ ⊔ κ) where
  ok : A → Result E A
  err : E → Result E A

infixl 5 ◌>>=◌ ◌>>◌
-- the `?` of the code
abbrev pub ◌>>=◌ {ℓ κ ι} :
    {E : Type ℓ} {A : Type κ} {B : Type ι} → Result E A → (A → Result E B) → Result E B
◌>>=◌ (ok value) next = next value
◌>>=◌ (err e) next = err e

abbrev pub ◌>>◌ {ℓ κ} : {E : Type ℓ} {B : Type κ} → Result E (Unit {0}) → Result E B → Result E B
m >> k = m >>= λ _. k

-- a value that has to be there: `Option::ok_or`
abbrev pub ok_or {ℓ κ} : {E : Type ℓ} {A : Type κ} → E → Option A → Result E A
ok_or e none = err e
ok_or e (Option.some a) = ok a
