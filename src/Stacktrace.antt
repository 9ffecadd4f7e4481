-- ===== src/Stacktrace.antt =====
-- crates/ruac/src/stacktrace.rs: `LuaSourceMapIndex`. A text is the list of its bytes.
pub mod Reference
pub mod Index
pub mod Parse
pub mod Location
pub mod Convert
pub mod Printed
pub mod PrintedLines
pub mod ParseFrame
pub mod ParsePrinted
pub mod Resolve
use rua_lang.Base.{
  ℕ, zero, suc, ◌+◌, ◌-◌, min, Bool, true, false, not, ◌&&◌, ◌||◌, List, [], ◌∷◌, ◌++◌, map, Option,
  none, some, Call, ok, panic, ◌>>=◌, ◌==◌, ltb, leb, if◌then◌else◌, length, get_elem?, replicate,
  codes,
}
use rua_lang.Newlines.{starts_after, partition_point}
use rua_lang.Source.{SourceRange}
use mathlib.Core.Option

pub record LuaSourceMapping : Type 0 where
  pub generated_start : ℕ
  pub generated_end : ℕ
  pub source : SourceRange

pub record LuaSourceMapIndex : Type 0 where
  pub by_line : List (Option SourceRange)

pub record IndexedMapping : Type 0 where
  pub priority : ℕ × ℕ
  pub source : SourceRange

unfoldable pub generated_line_starts : List ℕ → List ℕ
generated_line_starts source = 0 ∷ starts_after 0 source

unfoldable pub generated_line_at : List ℕ → ℕ → ℕ → ℕ
generated_line_at line_starts source_len offset =
    partition_point (λ start. leb start (min offset source_len)) line_starts

-- `<` on the pairs that are priorities
unfoldable pub lt_priority : ℕ × ℕ → ℕ × ℕ → Bool
lt_priority (a, b) (c, d) = ltb a c || (a == c && ltb b d)

-- what the loop over the slots does to one of them
unfoldable pub offer : IndexedMapping → Option IndexedMapping → Option IndexedMapping
offer candidate none = some candidate
offer candidate (some current) =
    if lt_priority candidate.priority current.priority then some candidate else some current

-- `for slot in &mut slots[lo..lo + n] { *slot = f(*slot) }`, in range
unfoldable pub map_range {ℓ} : {A : Type ℓ} → ℕ → ℕ → (A → A) → List A → List A
map_range lo n f [] = []
map_range zero zero f (x ∷ xs) = x ∷ xs
map_range zero (suc n) f (x ∷ xs) = f x ∷ map_range zero n f xs
map_range (suc lo) n f (x ∷ xs) = x ∷ map_range lo n f xs

unfoldable pub indexed : LuaSourceMapping → IndexedMapping
indexed m = record {
  priority = (m.generated_end - m.generated_start, m.generated_start);
  source = m.source;
}

-- one round of the loop over the source map; a slice out of range panics
unfoldable pub add_mapping :
    List ℕ
    → ℕ
    → LuaSourceMapping
    → List (Option IndexedMapping)
    → Call (List (Option IndexedMapping))
add_mapping line_starts source_len m candidates =
    if leb m.generated_end m.generated_start
    then ok candidates
    else let start_line = generated_line_at line_starts source_len m.generated_start in
      let end_line = generated_line_at line_starts source_len (m.generated_end - 1) in
      if leb 1 start_line && leb (start_line - 1) end_line && leb end_line (length candidates)
      then ok
          (map_range (start_line - 1) (end_line - (start_line - 1)) (offer (indexed m)) candidates)
      else panic

unfoldable pub add_mappings :
    List ℕ
    → ℕ
    → List LuaSourceMapping
    → List (Option IndexedMapping)
    → Call (List (Option IndexedMapping))
add_mappings line_starts source_len [] candidates = ok candidates
add_mappings line_starts source_len (m ∷ ms) candidates =
    add_mapping line_starts source_len m candidates >>= add_mappings line_starts source_len ms

abbrev pub source_of : Option IndexedMapping → Option SourceRange
source_of = Option.map (λ candidate. candidate.source)

unfoldable pub new : List ℕ → List LuaSourceMapping → Call LuaSourceMapIndex
new generated_source [] = ok (record { by_line = [] })
new generated_source (m ∷ ms) = do
  let line_starts = generated_line_starts generated_source
  candidates ←
      add_mappings line_starts (length generated_source) (m ∷ ms)
        (replicate (length line_starts) none)
  ok (record { by_line = map source_of candidates })

-- `line.checked_sub(1)?`, then the slot
unfoldable pub map_line : LuaSourceMapIndex → ℕ → Option SourceRange
map_line index zero = none
map_line index (suc line) = elim (get_elem? index.by_line line) [ none ↦ none | some slot ↦ slot ]
