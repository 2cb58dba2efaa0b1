-- ===== src/Go.antt =====
-- What the program uses of Go itself: dynamic values, 64-bit integers, `strconv`, texts.
pub mod Value
pub mod Strconv
pub mod Text
