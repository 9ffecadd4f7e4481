-- ===== src/Backend/Aliases.antt =====
-- crates/ruac/src/backend_layout.rs: module aliases and temporaries are new names.
use rua_lang.Base.{
  ℕ, zero, suc, ◌<◌, ◌≡◌, ◌≢◌, refl, ◌∙◌, ap, inl, inr, true, false, List, [], ◌∷◌, ◌++◌, All,
  Returns, Bool-cases, codes, arith,
}
use rua_lang.Text.{display}
use rua_lang.Text.Decimal.{display_inj}
use rua_lang.Backend.Names.{starts_with, contains, user_identifier}
use rua_lang.Backend.Safe.{IsBytes, user_identifier-IsSafe}
use rua_lang.Backend.Fresh.{push_until_free-free}
use rua_lang.Backend.Entries.{contains_self, contains-cons, All-map}
use rua_lang.Backend.Layout.{BackendLayout, add_root_name, runtime_module_alias, fresh_temporary}

-- the names behind a number of calls of `fresh_temporary`
unfoldable pub temporaries : ℕ → BackendLayout → List (List ℕ)
temporaries zero layout = []
temporaries (suc n) layout =
    let (layout', name) = fresh_temporary layout in name ∷ temporaries n layout'

-- An alias with the layout that holds it.
pub record Aliased (before : BackendLayout) (r : BackendLayout × List ℕ) : Type 0 where
  pub new : contains before.root_names r.1 ≡ false
  pub held : contains r.0.root_names r.1 ≡ true
  pub kept : (x : List ℕ) → contains before.root_names x ≡ true → contains r.0.root_names x ≡ true

add_root_name-Aliased :
    (layout : BackendLayout) (name : List ℕ)
    → contains layout.root_names name ≡ false
    → Aliased layout (add_root_name layout name, name)
unfolding add_root_name
add_root_name-Aliased layout name h = record {
  new = h;
  held = contains_self layout.root_names name;
  kept = λ x k. contains-cons layout.root_names name x k;
}

-- For every layout and every preferred name, `runtime_module_alias` returns: its loop ends. The alias
-- was none of the root names, is one of them behind the call, and the others remain.
pub runtime_module_alias-Aliased :
    (layout : BackendLayout) (preferred : List ℕ)
    → Returns (runtime_module_alias layout preferred) (Aliased layout)
unfolding runtime_module_alias
runtime_module_alias-Aliased layout preferred =
    let base = user_identifier preferred in
    elim (Bool-cases (contains layout.root_names base)) [
      | inl t ↦
          let (name, e, free) =
            push_until_free-free layout.root_names (base ++ codes "__runtime") in
          rw (t, e) (_, refl, add_root_name-Aliased layout name free)
      | inr f ↦ rw f (_, refl, add_root_name-Aliased layout base f)
    ]

abbrev pub Unique : List (List ℕ) → Type 0
Unique [] = Unit
Unique (x ∷ xs) = All (λ y. x ≢ y) xs × Unique xs

abbrev temporary : ℕ → List ℕ
temporary n = codes "__t" ++ display n

temporary_inj : (m n : ℕ) → temporary m ≡ temporary n → m ≡ n
temporary_inj m n e = display_inj m n cc

temporary-not_user : (n : ℕ) (name : List ℕ) → IsBytes name → temporary n ≢ user_identifier name
unfolding starts_with
temporary-not_user n name h e =
    let yes : true ≡ starts_with (codes "__t") (user_identifier name) =
      ap (starts_with (codes "__t")) e in
    let both : true ≡ false = yes ∙ (user_identifier-IsSafe name h).no_temporary in cc

-- What a temporary is, seen from the ones behind the number `n`.
abbrev Behind : ℕ → List ℕ → Type 0
Behind n x = (m : ℕ) × (n < m) × (x ≡ temporary m)

temporaries-Behind :
    (k : ℕ) (layout : BackendLayout) → All (Behind layout.next_temporary) (temporaries k layout)
unfolding temporaries fresh_temporary
temporaries-Behind zero layout = tt
temporaries-Behind (suc k) layout =
    let layout' = (fresh_temporary layout).0 in
    (
      (suc layout.next_temporary, omega arith, refl),
      All-map (Behind (suc layout.next_temporary)) (Behind layout.next_temporary) _
          (λ x (m, h, e). (m, omega (arith, h), e)) (temporaries-Behind k layout'),
    )

-- The names that any number of calls of `fresh_temporary` return are all different, and none of them
-- is what `user_identifier` returns for a name.
pub temporaries-Unique :
    (k : ℕ) (layout : BackendLayout)
    → Unique (temporaries k layout)
      × All (λ t. (name : List ℕ) → IsBytes name → t ≢ user_identifier name) (temporaries k layout)
unfolding temporaries fresh_temporary
temporaries-Unique zero layout = (tt, tt)
temporaries-Unique (suc k) layout =
    let next = suc layout.next_temporary in
    let layout' = (fresh_temporary layout).0 in
    let (unique, apart) = temporaries-Unique k layout' in
    (
      (
        All-map (Behind next) _ _
            (λ x (m, h, e) same.
              let equal : next ≡ m = temporary_inj next m (same ∙ e) in omega (arith, h, equal))
            (temporaries-Behind k layout'),
        unique,
      ),
      (temporary-not_user next, apart),
    )
