-- ===== src/Tests.antt =====
-- Runs of the definitions on small inputs, and the theorems at concrete inputs.
mod Backend
mod Cfg
mod Cursor
mod Diagnostics
mod Doc
mod Flow
mod Lex
mod LineIndex
mod Stacktrace
mod Tokenize
mod Utf8
mod Vfs
