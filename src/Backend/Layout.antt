-- ===== src/Backend/Layout.antt =====
-- crates/ruac/src/backend_layout.rs: the layout and what the code generator asks of it;
-- crates/ruac/src/hir.rs and crates/ruac/src/lua_ir.rs: the targets in question and in answer.
use rua_lang.Base.{
  ℕ, suc, Bool, true, false, not, ◌&&◌, ◌||◌, List, [], ◌∷◌, ◌++◌, Option, none, some, Call, ok,
  panic, ◌>>=◌, ◌==◌, if◌then◌else◌, codes,
}
use mathlib.Core.List.{reverse}
use rua_lang.Text.{display}
use rua_lang.Backend.Names.{contains, lua_keywords, is_word, user_identifier}
use rua_lang.Backend.Alloc.{Place, segments, LocalNames, push_until_free}

abbrev pub PlaceMap : Type 0
PlaceMap = List (ℕ × Place)

unfoldable pub get : PlaceMap → ℕ → Option Place
get [] id = none
get ((k, place) ∷ rest) id = let found = get rest id in if k == id then some place else found

pub record BackendLayout : Type 0 where
  pub modules : PlaceMap
  pub definitions : PlaceMap
  pub externs : PlaceMap
  pub locals : PlaceMap
  pub local_names : LocalNames
  pub root_names : List (List ℕ)
  pub next_temporary : ℕ

pub data ResolvedTarget : Type 0 where
  local item module_target builtin extern : ℕ → ResolvedTarget
  unresolved : ResolvedTarget

unfoldable pub target : BackendLayout → ResolvedTarget → Option Place
target layout (item id) = get layout.definitions id
target layout (module_target id) = get layout.modules id
target layout (local id) = get layout.locals id
target layout (extern id) = get layout.externs id
target layout (builtin id) = none
target layout unresolved = none

pub data FunctionTarget : Type 0 where
  local_function : List ℕ → FunctionTarget
  path : List (List ℕ) → FunctionTarget
  method : List (List ℕ) → List ℕ → FunctionTarget

unfoldable pub is_lua_identifier : List ℕ → Bool
is_lua_identifier value = is_word value && not (contains lua_keywords value)

unfoldable pub all_identifiers : List (List ℕ) → Bool
all_identifiers [] = true
all_identifiers (segment ∷ rest) = is_lua_identifier segment && all_identifiers rest

abbrev pub no_segment : List (List ℕ) → Bool
no_segment [] = true
no_segment (segment ∷ rest) = false

-- `FunctionTarget::local`
unfoldable pub local_target : List ℕ → Call FunctionTarget
local_target name = if is_lua_identifier name then ok (local_function name) else panic

unfoldable pub path_target : List (List ℕ) → Call FunctionTarget
path_target segments =
    if no_segment segments || not (all_identifiers segments) then panic else ok (path segments)

unfoldable pub method_target : List (List ℕ) → List ℕ → Call FunctionTarget
method_target receiver name =
    if no_segment receiver || not (all_identifiers receiver && is_lua_identifier name)
    then panic
    else ok (method receiver name)

unfoldable pub split_last : List (List ℕ) → Option (List (List ℕ) × List ℕ)
split_last segments = elim (reverse segments) [
  | [] ↦ none
  | last ∷ front ↦ some (reverse front, last)
]

-- `Place::callable_target`
unfoldable pub place_target : Place → Bool → Call FunctionTarget
place_target place false = path_target (segments place)
place_target place true = elim (split_last (segments place)) [
  | none ↦ panic
  | some (owner, name) ↦ method_target owner name
]

unfoldable pub callable_target : BackendLayout → ℕ → Bool → Call FunctionTarget
callable_target layout definition receiver = elim (get layout.definitions definition) [
  | none ↦ panic
  | some place ↦ place_target place receiver
]

unfoldable pub member_name : List ℕ → List ℕ
member_name name = user_identifier name

unfoldable pub add_root_name : BackendLayout → List ℕ → BackendLayout
add_root_name layout name = record layout { root_names = name ∷ layout.root_names }

unfoldable pub runtime_module_alias : BackendLayout → List ℕ → Call (BackendLayout × List ℕ)
runtime_module_alias layout preferred =
    let base = user_identifier preferred in
    if not (contains layout.root_names base)
    then ok (add_root_name layout base, base)
    else (push_until_free layout.root_names (base ++ codes "__runtime") >>= λ candidate.
        ok (add_root_name layout candidate, candidate))

unfoldable pub fresh_temporary : BackendLayout → BackendLayout × List ℕ
fresh_temporary layout =
    let next = suc layout.next_temporary in
    (record layout { next_temporary = next }, codes "__t" ++ display next)
