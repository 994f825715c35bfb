-- ===== src/Json.antt =====
-- What the program uses of package `encoding/json` of the standard library of Go 1.16: the texts of
-- strings, and the decoding of any value.
pub mod Utf8
pub mod Strings
pub mod Lex
pub mod Parse
pub mod Widths
pub mod Units
pub mod RoundTrip
