-- ===== src/GoText.antt =====
-- What the program uses of Go's `strings` and `strconv`, on texts as lists of bytes.
-- `TrimSpace` is modelled on the ASCII white space; it also trims some non-ASCII spaces in Go.
pub mod Decimal
pub mod Split
