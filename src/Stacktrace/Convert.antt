-- ===== src/Stacktrace/Convert.antt =====
-- crates/ruac/src/stacktrace.rs: the conversion of parsed frames.
use rua_lang.Base.{ℕ, List, ◌++◌, map, Option, none, some, Call, ok, ◌>>=◌, get_elem?, codes}
use mathlib.Core.Option
use rua_lang.Source.{SourceRange}
use rua_lang.Stacktrace.{LuaSourceMapping, LuaSourceMapIndex, map_line}
use rua_lang.Stacktrace as Stacktrace
use rua_lang.Text.{display}
use rua_lang.Stacktrace.Parse.{LuaStackFrame, parse_lua_traceback}

pub record RuaStackFrame : Type 0 where
  pub lua : LuaStackFrame
  pub rua_file : Option (List ℕ)
  pub rua_file_id : Option ℕ
  pub rua_range : Option SourceRange

pub record RuaTraceback : Type 0 where
  pub message : List ℕ
  pub frames : List RuaStackFrame

-- the name of a file in the registry, or a stand-in for it
unfoldable pub file_name : List (List ℕ) → ℕ → List ℕ
file_name source_files file = elim (get_elem? source_files file) [
  | none ↦ codes "<file " ++ display file ++ codes ">"
  | some name ↦ name
]

-- a frame with its range
unfoldable pub with_range : List (List ℕ) → LuaStackFrame → Option SourceRange → RuaStackFrame
with_range source_files lua rua_range = record {
  lua = lua;
  rua_file = Option.map (λ range. file_name source_files range.file) rua_range;
  rua_file_id = Option.map (λ range. range.file) rua_range;
  rua_range = rua_range;
}

unfoldable pub convert_lua_frame_with_index :
    LuaStackFrame → LuaSourceMapIndex → List (List ℕ) → RuaStackFrame
convert_lua_frame_with_index lua source_index source_files =
    with_range source_files lua
      (elim lua.line [ none ↦ none | some line ↦ map_line source_index line ])

unfoldable pub convert_lua_frame :
    LuaStackFrame → List ℕ → List LuaSourceMapping → List (List ℕ) → Call RuaStackFrame
convert_lua_frame lua generated_source source_map source_files =
    Stacktrace.new generated_source source_map >>= λ source_index.
    ok (convert_lua_frame_with_index lua source_index source_files)

unfoldable pub convert_lua_traceback :
    List ℕ → List ℕ → List LuaSourceMapping → List (List ℕ) → Call RuaTraceback
convert_lua_traceback traceback generated_source source_map source_files =
    let parsed = parse_lua_traceback traceback in
    Stacktrace.new generated_source source_map >>= λ source_index. ok (record {
      message = parsed.message;
      frames =
          map (λ lua. convert_lua_frame_with_index lua source_index source_files) parsed.frames;
    })
