-- ===== src/Stacktrace/Resolve.antt =====
-- crates/ruac/src/stacktrace.rs: the frames of a traceback, located without an index.
use rua_lang.Base.{ℕ, ◌≡◌, List, ◌++◌, Option, none, some, get_elem?, codes}
use mathlib.Core.List.{Forall₂}
use rua_lang.Source.{SourceRange}
use rua_lang.Stacktrace.{LuaSourceMapping}
use rua_lang.Stacktrace.Convert.{RuaStackFrame, RuaTraceback}
use rua_lang.Stacktrace.Parse.{LuaStackFrame, LuaTraceback}
use rua_lang.Stacktrace.Reference.{reference_mapping_for_line}
use rua_lang.Text.{display}

-- The name that a report shows for a file: that of the list, or a stand-in with its number.
pub data Named (files : List (List ℕ)) (file : ℕ) : List ℕ → Type 0 where
  listed : {name : List ℕ} → get_elem? files file ≡ some name → Named files file name
  unlisted :
      get_elem? files file ≡ none → Named files file (codes "<file " ++ display file ++ codes ">")

-- The place in the Rua sources that a report shows, by the line in the generated text. The direct
-- search over the source map answers it, or there is none.
pub data Located (source : List ℕ) (source_map : List LuaSourceMapping) (files : List (List ℕ))
    : Option ℕ → RuaStackFrame → Type 0 where
  without_line :
      {lua : LuaStackFrame}
      → Located source source_map files none
          (record { lua = lua; rua_file = none; rua_file_id = none; rua_range = none })
  unmapped :
      {line : ℕ} {lua : LuaStackFrame}
      → reference_mapping_for_line source source_map line ≡ none
      → Located source source_map files
          (some line)
          (record { lua = lua; rua_file = none; rua_file_id = none; rua_range = none })
  mapped :
      {line : ℕ} {lua : LuaStackFrame} {range : SourceRange} {name : List ℕ}
      → reference_mapping_for_line source source_map line ≡ some range
      → Named files range.file name
      → Located source source_map files (some line) (record {
        lua = lua;
        rua_file = some name;
        rua_file_id = some range.file;
        rua_range = some range;
      })

-- A frame of the report shows the parsed frame, and the place of its line.
pub record Reports (source : List ℕ) (source_map : List LuaSourceMapping) (files : List (List ℕ))
    (lua : LuaStackFrame) (frame : RuaStackFrame) : Type 0 where
  pub same : frame.lua ≡ lua
  pub place : Located source source_map files lua.line frame

-- what a report shows of a parsed traceback
pub record Translates (source : List ℕ) (source_map : List LuaSourceMapping) (files : List (List ℕ))
    (parsed : LuaTraceback) (report : RuaTraceback) : Type 0 where
  pub message : report.message ≡ parsed.message
  pub frames : Forall₂ (Reports source source_map files) parsed.frames report.frames
