-- ===== src/Lex/Ends.antt =====
-- crates/rua-common/src/lex.rs: where each part of the lexer ends.
pub mod Skip
pub mod Scan
pub mod Number
pub mod Lua
pub mod Token
use rua_lang.Base.{ℕ, ◌<◌, ◌≡◌, true, List}
use rua_lang.Lex.Bytes.{is_char_boundary}

-- `end` is a character boundary of the text, behind `start`.
pub record EndsAfter (text : List ℕ) (start end : ℕ) : Type 0 where
  pub past : start < end
  pub boundary : is_char_boundary text end ≡ true
