-- ===== src/Lib.antt =====
-- Rua, as functions: of the shared crate the lexer, configuration attributes and diagnostic codes; of
-- the compiler the token stream, tracebacks, index of generated lines and Lua names; of the editor the
-- line index, pretty printer, file store and control-flow graph.
--
-- The repository compiles Rua, a typed scripting language, to Lua. Two programs share one lossless
-- lexer (crates/rua-common): the compiler (crates/ruac) and the language server (crates/rua-ide).
--
-- Which file models which part:
--
--   Lex/Kind            crates/rua-common/src/lex.rs: token kinds, spellings, keywords
--   Lex/Bytes           the byte classes and the methods of Rust's str that the lexer calls
--   Lex/Scan, Lex/Lua   the loops over comments, strings, numbers and Lua blocks
--   Lex/Token           the dispatch on one byte; Lex/Stream: lex_with_limit and lex
--   Lex/Range           crates/rua-common/src/core.rs: TextRange
--   Lex/Ends, Lex/NotEof, Lex/Lossless, Lex/Keywords   the proofs on it
--   Doc                 crates/rua-ide/src/syntax/format/doc.rs: documents
--   Doc/Printer         the same file's print and fits, with their stacks
--   Doc/Total, Doc/Content, Doc/InOrder, Doc/Spaces, Doc/NoTrailing   the proofs on it
--   Newlines            line starts of a text and the search among them
--   LineIndex           crates/rua-ide/src/syntax/line_index.rs: LineIndex
--   LineIndex/Line, LineIndex/Chars, LineIndex/Row, LineIndex/Content, LineIndex/Ascii,
--   LineIndex/RoundTrip, LineIndex/Position   the proofs on it
--   Cfg, Cfg/Expand     crates/rua-common/src/core.rs: cfg conditions, expand_cfg_attributes
--   Cfg/Expands         what an expansion is, without the queue
--   Cfg/Rounds, Cfg/Limit   the proofs on it
--   Diagnostics         the same file's diagnostic codes and their payload
--   Diagnostics/Codes   the proofs on its tables
--   Source              crates/ruac/src/token.rs: SourceRange, TokenData
--   Tokenize            crates/ruac/src/tokenize.rs: the strict tokens, read off the lossless ones
--   Tokenize/Strict     the same tokens without a cursor
--   Tokenize/Reads, Tokenize/Cover   the proofs on it
--   Cursor              crates/ruac/src/lexer.rs: the parser's cursor; Cursor/Walk: the proofs on it
--   Stacktrace          crates/ruac/src/stacktrace.rs: LuaSourceMapIndex
--   Stacktrace/Parse, Stacktrace/Convert   the same file's parser of tracebacks and its conversions
--   Stacktrace/Printed  tracebacks in the form in which Lua prints them
--   Stacktrace/Location, Stacktrace/PrintedLines, Stacktrace/ParseFrame, Stacktrace/ParsePrinted,
--   Stacktrace/Resolve  the proofs on them
--   Stacktrace/Reference, Stacktrace/Index   the test reference of the same file, and the proofs
--   Text, Text/Decimal  methods of Rust's str on characters, and the decimal numerals
--   Text/Trim, Text/Lines   the lemmas on trim, on prefixes and suffixes, and on lines
--   Backend/Names       crates/ruac/src/backend_layout.rs: user_identifier; Backend/Safe: the proofs
--   Backend/Alloc       the same file's allocation of names and loop over the locals
--   Backend/Layout      the same file's queries, aliases and temporaries, with the targets of
--                       crates/ruac/src/hir.rs and crates/ruac/src/lua_ir.rs
--   Backend/Fresh, Backend/Entries, Backend/Locals, Backend/Aliases   the proofs on them
--   Flow                crates/rua-ide/src/analysis/hir/cfg.rs: the graph, its search and queries
--   Flow/Body           crates/rua-ide/src/analysis/hir/body.rs: the data of a lowered body
--   Flow/Builder        the same cfg.rs: the builder
--   Flow/Reach, Flow/Queries, Flow/Build   the proofs on them
--   Vfs                 crates/rua-ide/src/analysis/vfs/mod.rs: the store of files and its changes
--   Vfs/Index, Vfs/Keeps, Vfs/Changes, Vfs/SetFile   the proofs on it
--   Base                Boolean tests, lists, calls and loops that all of them share; Tests: runs
--
-- Conventions. A text is the list of its bytes; a position is an index into it. A call of the source
-- returns (ok), panics (panic), or, in the model alone, runs out of fuel (stuck). A while loop is a
-- step function under Base/Loop, with fuel one more than the length of the text; the measure that
-- falls is the number of bytes left. A usize is a plain natural number: no length of the model comes
-- near 2^64, and the counter of temporaries, which the source adds to unchecked, would take 2^64
-- calls. A u32 is checked where the source asserts or adds.
--
-- The loops of print and fits have the number of document nodes left as fuel, which falls by one in
-- each round. The printer's output is a list of characters, so that a width is its length; remaining,
-- which the source lets turn negative, stops the loop in the round in which it would. The direct
-- search of Stacktrace/Reference is the one that the source keeps for its tests.
--
-- Not modelled: the parsers and the syntax trees (the editor's stand on the rowan package), name
-- resolution, type checking, code generation, the analysis database, the language server and the
-- command line.
--
-- The line index and the generated line index both read Newlines. A character is given by its first
-- byte, which fixes its widths in UTF-8 and UTF-16. A slice off a character boundary panics in the
-- model as it does in Rust.
--
-- The loop over cfg_attr has a limit of its own, 256 rounds that handle an attribute; the fuel is 258,
-- which leaves the round that meets the limit and the round that finds the queue empty.
--
-- A traceback is a list of characters, of which the source looks at single ASCII ones by their bytes;
-- the texts of the lexer and the names of the backend are lists of bytes.
--
-- A hash map of the graph's builder is an association list in the order of insertion, a stack has its
-- top first, and an identity of an arena is a number. The search's fuel is two more than the number of
-- edges, since each edge is pushed once; the builder's fuel is one more than the identity it starts
-- at, since the arena holds an expression behind those below it. The loops that push underscores have
-- fuel for the longest name in use. Of the backend layout, the loops over modules and definitions and
-- the names of modules, which need Rust's tables of upper case letters, are not modelled.
--
-- The file store's maps are functions to options. A path of the store is its normalized text; its
-- normalization stands on Rust's std::path and is not modelled. A revision beyond u64::MAX and an
-- unknown source root panic, as in the source.
pub mod Base
pub mod Doc
pub mod Lex
pub mod Newlines
pub mod Source
pub mod Stacktrace
mod Tests
pub mod LineIndex
pub mod Cfg
pub mod Tokenize
pub mod Cursor
pub mod Text
pub mod Backend
pub mod Flow
pub mod Diagnostics
pub mod Vfs
