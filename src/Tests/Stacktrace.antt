-- ===== src/Tests/Stacktrace.antt =====
-- crates/ruac/src/stacktrace.rs, run on a small chunk and traceback, and the theorems there.
use rua_lang.Base.{
  ℕ, ◌≡◌, refl, List, [], ◌∷◌, Option, none, some, Call, ok, ◌>>=◌, ◌++◌, Returns, codes, map,
  arith,
}
use rua_lang.Newlines.{starts_after, partition_point}
use rua_lang.Source.{SourceRange}
use rua_lang.Stacktrace.{
  LuaSourceMapping, generated_line_starts, generated_line_at, lt_priority, offer, map_range,
  indexed, add_mapping, add_mappings, new, map_line,
}
use rua_lang.Lex.Kind.{bytes_eq}
use rua_lang.Stacktrace.Location.{parse_location-printed, is_path}
use rua_lang.Stacktrace.Parse.{
  starts_with_colon, at_number, at_colon, locate, parse_location, parse_first, parse_frame,
  parse_frames, parse_lines, parse_lua_traceback,
}
use rua_lang.Stacktrace.Printed.{PrintedTraceback, lua_function, native}
use rua_lang.Text.{
  is_whitespace, trim_start, trim, strip_prefix, strip_suffix, push_front, lines, span_digits,
  decimal, parse_usize, display,
}
use rua_lang.Stacktrace.Index.{map_line-new}
use rua_lang.Stacktrace.Reference.{reference_mapping_for_line}

abbrev chunk : List ℕ
chunk = codes "local a\nlocal b = a\nreturn b\n"

abbrev at_line : ℕ → SourceRange
at_line n = record { start = 0; len = 1; line = n; file = 0 }

-- A mapping of the whole chunk, one of its second line, and an empty one.
abbrev source_map : List LuaSourceMapping
source_map =
    record { generated_start = 0; generated_end = 28; source = at_line 1 }
    ∷ record { generated_start = 8; generated_end = 19; source = at_line 7 }
    ∷ record { generated_start = 20; generated_end = 20; source = at_line 9 }
    ∷ []

mapped : Call (List (Option SourceRange))
unfolding new generated_line_starts generated_line_at lt_priority offer map_range indexed
    add_mapping add_mappings map_line starts_after partition_point
mapped = new chunk source_map >>= λ index. ok (map (map_line index) (0 ∷ 1 ∷ 2 ∷ 3 ∷ 4 ∷ 5 ∷ []))

mapped_run :
    mapped ≡ ok (none ∷ some (at_line 1) ∷ some (at_line 7) ∷ some (at_line 1) ∷ none ∷ none ∷ [])
unfolding mapped
mapped_run = refl

map_line-new_example :
    Returns
      (new chunk source_map)
      (λ index. (line : ℕ) → map_line index line ≡ reference_mapping_for_line chunk source_map line)
map_line-new_example = map_line-new chunk source_map

abbrev path : List ℕ
path = codes "C:\\\\x.lua"

parse_location-printed_example :
    parse_location (path ++ b':' ∷ (display 12 ++ codes ": in ?"))
    ≡ some (record { source = path; line = 12; suffix = codes ": in ?" })
unfolding is_path trim trim_start is_whitespace starts_with_colon
parse_location-printed_example =
    parse_location-printed path 12 (codes ": in ?") refl refl refl (omega arith) refl

-- A number that no `usize` holds ends the search, though a location stands behind it.
abbrev overflowing : List ℕ
overflowing = codes "a:99999999999999999999:b.lua:1"

give_up_run : parse_location overflowing ≡ none
unfolding parse_location locate at_colon at_number span_digits parse_usize decimal starts_with_colon
    trim trim_start is_whitespace
give_up_run = refl

parsed_run :
    parse_lua_traceback
      (codes "lua: m.lua:3: bad\nstack traceback:\n\t[C]: in ?\n\tm.lua:12: in main chunk\n")
    ≡ record {
      message = codes "bad";
      frames =
          record {
            source = codes "m.lua";
            line = some 3;
            function = none;
            raw = codes "lua: m.lua:3: bad";
          }
          ∷ record {
            source = codes "[C]";
            line = none;
            function = some (codes "?");
            raw = codes "[C]: in ?";
          }
          ∷ record {
            source = codes "m.lua";
            line = some 12;
            function = some (codes "main chunk");
            raw = codes "m.lua:12: in main chunk";
          }
          ∷ [];
    }
unfolding parse_lua_traceback parse_lines parse_frames parse_frame parse_first parse_location locate
    at_colon at_number span_digits parse_usize decimal starts_with_colon trim trim_start
    is_whitespace lines strip_prefix strip_suffix push_front bytes_eq
parsed_run = refl

-- An error on the second line of the chunk, called from its third and from a native function.
abbrev traceback : PrintedTraceback
traceback = record {
  path = codes "m.lua";
  line = 2;
  message = codes "bad";
  frames = native (codes "[C]") ∷ lua_function (codes "m.lua") 3 (codes "main chunk") ∷ [];
}

abbrev files : List (List ℕ)
files = codes "main.rua" ∷ []
