-- ===== src/Tests/Backend.antt =====
-- crates/ruac/src/backend_layout.rs, run on the inputs of its own tests, and the theorems at such inputs.
use rua_lang.Base.{
  ℕ, ◌≡◌, ◌≢◌, refl, false, List, [], ◌∷◌, All, Call, ok, panic, ◌>>=◌, Returns, loop, codes, arith,
}
use rua_lang.Lex.Kind.{bytes_eq}
use rua_lang.Text.{display, display_with}
use rua_lang.Backend.Names.{
  starts_with, contains, is_word_byte, all_word, is_word, is_plain_identifier, hex_digit, hex,
  user_identifier,
}
use rua_lang.Backend.Safe.{IsSafe, IsBytes, user_identifier-IsSafe, user_identifier_inj}
use rua_lang.Backend.Alloc.{
  Used, insert_name, allocate_name, longest, push_step, push_until_free, local_place, LocalData,
  find_local, add_local, new_local, allocate_local, allocate_locals, local_name, name,
}
use rua_lang.Backend.Locals.{Placed, allocate_locals-Placed}
use rua_lang.Backend.Layout.{
  BackendLayout, FunctionTarget, is_lua_identifier, local_target, path_target, runtime_module_alias,
  fresh_temporary,
}
use rua_lang.Backend.Aliases.{
  Aliased, temporaries, Unique, runtime_module_alias-Aliased, temporaries-Unique,
}

unfoldable identifier : List ℕ → List ℕ
unfolding user_identifier is_plain_identifier is_word all_word is_word_byte contains starts_with
    bytes_eq hex hex_digit
identifier n = user_identifier n

ordinary : identifier (codes "ordinary_name") ≡ codes "ordinary_name"
unfolding identifier
ordinary = refl

repeat_keyword : identifier (codes "repeat") ≡ codes "__rua_user_726570656174"
unfolding identifier
repeat_keyword = refl

end-IsBytes : IsBytes (codes "end")
end-IsBytes = (omega arith, (omega arith, (omega arith, tt)))

user_identifier-IsSafe_example : IsSafe (user_identifier (codes "end"))
user_identifier-IsSafe_example = user_identifier-IsSafe (codes "end") end-IsBytes

user_identifier_inj_example : user_identifier (codes "end") ≢ user_identifier (codes "End")
user_identifier_inj_example =
    user_identifier_inj (codes "end") (codes "End") end-IsBytes
      (omega arith, (omega arith, (omega arith, tt)))
      (λ e. let heads : ◌≡◌ {A = ℕ} 101 69 = cc in omega (arith, heads))

abbrev names : Used
names m = codes "x" ∷ codes "x__local" ∷ []

abbrev local : ℕ → List ℕ → LocalData
local id n = record { id = id; name = n; module_id = 0; is_mutable = false }

abbrev two_locals : List LocalData
two_locals = local 0 (codes "x") ∷ local 1 (codes "y") ∷ local 2 (codes "x") ∷ []

variables : Call (List (List ℕ))
unfolding allocate_locals allocate_local new_local add_local find_local local_place push_until_free
    push_step longest loop insert_name identifier local_name name
variables =
    allocate_locals (record { used = names; local_names = []; locals = [] }) two_locals >>= λ s.
    ok (local_name s.local_names 0 (codes "x") ∷ local_name s.local_names 0 (codes "y") ∷ [])

variables_run : variables ≡ ok (codes "x__local_" ∷ codes "y" ∷ [])
unfolding variables
variables_run = refl

allocate_locals-Placed_example : Placed names two_locals
allocate_locals-Placed_example = allocate_locals-Placed names two_locals

abbrev layout : BackendLayout
layout = record {
  modules = [];
  definitions = [];
  externs = [];
  locals = [];
  local_names = [];
  root_names = codes "json" ∷ codes "rt" ∷ [];
  next_temporary = 9;
}

runtime_module_alias-Aliased_example :
    Returns (runtime_module_alias layout (codes "json")) (Aliased layout)
runtime_module_alias-Aliased_example = runtime_module_alias-Aliased layout (codes "json")

ten : temporaries 2 layout ≡ codes "__t10" ∷ codes "__t11" ∷ []
unfolding temporaries fresh_temporary display display_with
ten = refl

temporaries-Unique_example :
    Unique (temporaries 2 layout)
    × All (λ t. (n : List ℕ) → IsBytes n → t ≢ user_identifier n) (temporaries 2 layout)
temporaries-Unique_example = temporaries-Unique 2 layout

-- The module `a` with the identity 1, the function `a__1`, and the function `a` with the identity 1.
clash : Call (List ℕ)
unfolding allocate_name insert_name identifier display display_with
clash = allocate_name (λ m. []) 0 (codes "a") 1 >>= λ r.
    allocate_name r.0 0 (codes "a__1") 0 >>= λ r'.
    allocate_name r'.0 0 (codes "a") 1 >>= λ r''. ok r''.1

clash_run : clash ≡ panic
unfolding clash
clash_run = refl

-- the targets of a function in a local variable, of one named by a keyword, and of none
targets :
    (local_target (codes "f") ≡ ok (FunctionTarget.local_function (codes "f")))
    × (local_target (codes "end") ≡ panic)
    × (path_target [] ≡ panic)
unfolding local_target path_target is_lua_identifier contains is_word all_word is_word_byte bytes_eq
targets = (refl, refl, refl)
