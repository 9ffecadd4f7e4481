-- ===== src/Backend/Alloc.antt =====
-- crates/ruac/src/backend_layout.rs: the allocation of names in the scope of a module.
use rua_lang.Base.{
  ℕ, ◌+◌, Bool, not, ◌&&◌, List, [], ◌∷◌, ◌++◌, Option, none, some, Call, ok, panic, ◌>>=◌, Next,
  go, stop, loop, max, ◌==◌, if◌then◌else◌, length, codes,
}
use rua_lang.Lex.Kind.{bytes_eq}
use rua_lang.Text.{display}
use rua_lang.Backend.Names.{contains, user_identifier}

-- `Lua place`: a variable and the fields behind it
pub record Place : Type 0 where
  pub root : List ℕ
  pub fields : List (List ℕ)

unfoldable pub name : List ℕ → Place
name root = record { root = root; fields = [] }

unfoldable pub field : Place → List ℕ → Place
field place field_name = record place { fields = place.fields ++ field_name ∷ [] }

unfoldable pub segments : Place → List (List ℕ)
segments place = place.root ∷ place.fields

-- the map from a module to its set of names
abbrev pub Used : Type 0
Used = ℕ → List (List ℕ)

unfoldable pub insert_name : Used → ℕ → List ℕ → Used
insert_name used scope name = λ m. if m == scope then name ∷ used m else used m

unfoldable pub allocate_name : Used → ℕ → List ℕ → ℕ → Call (Used × List ℕ)
allocate_name used scope source_name identity =
    let candidate = user_identifier source_name in
    let unique = candidate ++ codes "__" ++ display identity in
    if not (contains (used scope) candidate)
    then ok (insert_name used scope candidate, candidate)
    else if not (contains (used scope) unique)
    then ok (insert_name used scope unique, unique)
    else panic

unfoldable pub longest : List (List ℕ) → ℕ
longest [] = 0
longest (name ∷ names) = max (length name) (longest names)

-- `while names.contains(&candidate) { candidate.push('_') }`
unfoldable pub push_step : List (List ℕ) → List ℕ → Call (Next (List ℕ) (List ℕ))
push_step names candidate =
    if contains names candidate then ok (go (candidate ++ codes "_")) else ok (stop candidate)

unfoldable pub push_until_free : List (List ℕ) → List ℕ → Call (List ℕ)
push_until_free names candidate = loop (2 + longest names) (push_step names) candidate

-- the name of a local in a scope whose names are `names`
unfoldable pub local_place : List (List ℕ) → List ℕ → Call (List ℕ)
local_place names candidate =
    if contains names candidate
    then push_until_free names (candidate ++ codes "__local")
    else ok candidate

pub record LocalData : Type 0 where
  pub id : ℕ
  pub name : List ℕ
  pub module_id : ℕ
  pub is_mutable : Bool

-- the entry of `local_names` for a module and a source name
abbrev pub LocalNames : Type 0
LocalNames = List ((ℕ × List ℕ) × List ℕ)

unfoldable pub find_local : LocalNames → ℕ → List ℕ → Option (List ℕ)
find_local [] m n = none
find_local (((m', n'), place) ∷ rest) m n =
    let found = find_local rest m n in if m' == m && bytes_eq n' n then some place else found

-- the three maps that the loop over the locals fills
pub record Locals : Type 0 where
  pub used : Used
  pub local_names : LocalNames
  pub locals : List (ℕ × Place)

unfoldable pub add_local : Locals → LocalData → List ℕ → Locals
add_local s local place = record s { locals = s.locals ++ (local.id, name place) ∷ [] }

unfoldable pub new_local : Locals → LocalData → Call Locals
new_local s local = local_place (s.used local.module_id) (user_identifier local.name) >>= λ place.
    ok (
      add_local
        (record s {
          used = insert_name s.used local.module_id place;
          local_names = ((local.module_id, local.name), place) ∷ s.local_names;
        })
        local place)

unfoldable pub allocate_local : Locals → LocalData → Call Locals
allocate_local s local = elim (find_local s.local_names local.module_id local.name) [
  | some place ↦ ok (add_local s local place)
  | none ↦ new_local s local
]

unfoldable pub allocate_locals : Locals → List LocalData → Call Locals
allocate_locals s [] = ok s
allocate_locals s (local ∷ locals) = allocate_local s local >>= λ s'. allocate_locals s' locals

-- `BackendLayout::local_name`
unfoldable pub local_name : LocalNames → ℕ → List ℕ → List ℕ
local_name local_names m n = elim (find_local local_names m n) [
  | none ↦ user_identifier n
  | some place ↦ place
]
