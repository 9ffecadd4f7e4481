-- ===== src/Lex.antt =====
-- crates/rua-common/src/lex.rs: the lossless lexer.
pub mod Kind
pub mod Bytes
pub mod Scan
pub mod Lua
pub mod Range
pub mod Token
pub mod Stream
pub mod Ends
pub mod NotEof
pub mod Lossless
pub mod Keywords
