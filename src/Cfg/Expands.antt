-- ===== src/Cfg/Expands.antt =====
-- crates/rua-common/src/core.rs: what the expansion of some attributes is, without a queue.
use rua_lang.Base.{ℕ, suc, ◌+◌, ◌≡◌, Bool, true, false, ◌&&◌, List, [], ◌∷◌, ◌++◌, codes}
use rua_lang.Cfg.{MetaItem, MetaItems, item_then, Attribute, CfgExpr, CfgOptions, matches, cfg_expr}
use rua_lang.Base.{done}
use rua_lang.Cfg.Expand.{single_cfg_argument, nested_attributes}
use rua_lang.Lex.Kind.{bytes_eq}

-- `Expands options attributes n kept active`: with every `cfg_attr` whose condition holds replaced by
-- the attributes it nests, at any depth, `n` attributes are met. `kept` are those that are no
-- configuration, in order, and `active` says that every `cfg` met holds.
pub data Expands (options : CfgOptions) : List Attribute → ℕ → List Attribute → Bool → Type 0 where
  nothing : Expands options [] 0 [] true
  keeps :
      (a : Attribute) {rest : List Attribute} {n : ℕ} {kept : List Attribute} {active : Bool}
      → bytes_eq a.name (codes "cfg") ≡ false
      → bytes_eq a.name (codes "cfg_attr") ≡ false
      → Expands options rest n kept active
      → Expands options (a ∷ rest) (suc n) (a ∷ kept) active
  tests :
      (a : Attribute) (c : CfgExpr) {rest : List Attribute} {n : ℕ} {kept : List Attribute}
      {active : Bool}
      → bytes_eq a.name (codes "cfg") ≡ true
      → single_cfg_argument a.items ≡ done c
      → Expands options rest n kept active
      → Expands options (a ∷ rest) (suc n) kept (matches options c && active)
  skips :
      (a : Attribute) (condition item : MetaItem) (items : MetaItems) (c : CfgExpr)
      {rest : List Attribute} {n : ℕ} {kept : List Attribute} {active : Bool}
      → bytes_eq a.name (codes "cfg") ≡ false
      → bytes_eq a.name (codes "cfg_attr") ≡ true
      → a.items ≡ item_then condition (item_then item items)
      → cfg_expr condition ≡ done c
      → matches options c ≡ false
      → Expands options rest n kept active
      → Expands options (a ∷ rest) (suc n) kept active
  opens :
      (a : Attribute) (condition item : MetaItem) (items : MetaItems) (c : CfgExpr)
      (inner : List Attribute) {rest : List Attribute} {m n : ℕ} {kept kept' : List Attribute}
      {active active' : Bool}
      → bytes_eq a.name (codes "cfg") ≡ false
      → bytes_eq a.name (codes "cfg_attr") ≡ true
      → a.items ≡ item_then condition (item_then item items)
      → cfg_expr condition ≡ done c
      → matches options c ≡ true
      → nested_attributes (item_then item items) ≡ done inner
      → Expands options inner m kept active
      → Expands options rest n kept' active'
      → Expands options (a ∷ rest) (suc (m + n)) (kept ++ kept') (active && active')
