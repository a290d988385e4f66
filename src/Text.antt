-- ===== src/Text.antt =====
-- Text as the C++ sources use it: bytes, decimal integers, and fields between spaces.
-- Standard library calls only: `stringstream <<`, `atoi`, `find_first_of`, `substr`.
pub mod Decimal
pub mod Atoi
pub mod Fields
pub mod IntFields
pub mod Equal
pub mod Stream
pub use IntFields.{first_int, rest_int, last_int, rest_last_int, int_fields}
unfoldable pub use Decimal.{Bytes, space, show_int}
unfoldable pub use Atoi.{atoi}
unfoldable pub use Fields.{first_field, rest_field}
pub use Decimal.{
  show_nat, IsDigit, show_int-ne-nil, IsOneDigit, length-show_digit, length-show_long,
}
pub use Atoi.{atoi-show_int, atoi-show_int-space, atoi-zero_show}
pub use Fields.{
  NoSpace, show_int-NoSpace, first_field-append, rest_field-append, first_field_last,
  rest_field_last,
}
