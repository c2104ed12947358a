-- ===== src/Strings.antt =====
-- What the program uses of Go's packages `strings` and `strconv`, over lists of bytes.
pub mod Affix
pub mod Atoi
pub mod Decimal
pub mod Split
pub mod Trim
pub mod Utf8
pub mod Lines
pub mod Fields
pub mod Scan
pub mod Replace
pub mod Path
