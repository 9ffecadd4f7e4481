-- ===== src/Stacktrace/Reference.antt =====
-- crates/ruac/src/stacktrace.rs: the direct search that its tests compare the index with.
use mathlib.Core.Option
use rua_lang.Base.{
  ℕ, ◌+◌, ◌-◌, min, Bool, false, ◌&&◌, ◌||◌, List, [], ◌∷◌, Option, none, some, ◌==◌, leb,
  if◌then◌else◌, length, take,
}
use rua_lang.Newlines.{newlines}
use rua_lang.Source.{SourceRange}
use rua_lang.Stacktrace.{LuaSourceMapping, lt_priority}

unfoldable pub reference_line_at : List ℕ → ℕ → ℕ
reference_line_at source offset = 1 + newlines (take (min offset (length source)) source)

unfoldable pub reference_mapping_contains_line : List ℕ → LuaSourceMapping → ℕ → Bool
reference_mapping_contains_line source m line =
    if leb m.generated_end m.generated_start || line == 0
    then false
    else leb (reference_line_at source m.generated_start) line
      && leb line (reference_line_at source (m.generated_end - 1))

abbrev pub priority : LuaSourceMapping → ℕ × ℕ
priority m = (m.generated_end - m.generated_start, m.generated_start)

-- `filter(…).min_by_key(priority)` keeps the first of the least, from the best one so far.
unfoldable pub min_from :
    (LuaSourceMapping → Bool)
    → Option LuaSourceMapping
    → List LuaSourceMapping
    → Option LuaSourceMapping
min_from keep best [] = best
min_from keep none (m ∷ ms) = min_from keep (if keep m then some m else none) ms
min_from keep (some best) (m ∷ ms) =
    min_from keep (if keep m && lt_priority (priority m) (priority best) then some m else some best)
      ms

unfoldable pub reference_mapping_for_line : List ℕ → List LuaSourceMapping → ℕ → Option SourceRange
reference_mapping_for_line source source_map line =
    Option.map (λ m. m.source)
      (min_from (λ m. reference_mapping_contains_line source m line) none source_map)
