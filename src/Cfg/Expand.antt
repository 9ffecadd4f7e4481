-- ===== src/Cfg/Expand.antt =====
-- crates/rua-common/src/core.rs: `expand_cfg_attributes`.
use rua_lang.Base.{
  ℕ, suc, ◌+◌, Bool, true, ◌&&◌, List, [], ◌∷◌, ◌++◌, Call, ok, Next, go, stop, loop, ltb,
  if◌then◌else◌, codes,
}
use rua_lang.Cfg.{
  MetaItem, word, name_value, named_list, literal, MetaItems, no_item, item_then, Attribute,
  CfgExpr, CfgOptions, matches, cfg_expr, CfgError,
}
use rua_lang.Base.{Result, error, done, on_done}
use rua_lang.Lex.Kind.{bytes_eq}

pub record ExpandedAttributes : Type 0 where
  pub active : Bool
  pub attributes : List Attribute

abbrev pub max_expansions : ℕ
max_expansions = 256

unfoldable pub single_cfg_argument : MetaItems → Result CfgError CfgExpr
single_cfg_argument (item_then item no_item) = cfg_expr item
single_cfg_argument _ = error (codes "cfg requires exactly one condition")

unfoldable pub attribute_from_meta : MetaItem → Result CfgError Attribute
attribute_from_meta (word name) = done (record { name = name; items = no_item })
attribute_from_meta (named_list name items) = done (record { name = name; items = items })
attribute_from_meta (name_value name value) =
    done (record { name = name; items = item_then (name_value name value) no_item })
attribute_from_meta (literal _) =
    error (codes "cfg_attr result must be an attribute, not a literal")

-- The items are read last first, and each lands before the ones read.
unfoldable pub nested_attributes : MetaItems → Result CfgError (List Attribute)
nested_attributes no_item = done []
nested_attributes (item_then item items) =
    on_done (nested_attributes items)
      (λ attributes. on_done (attribute_from_meta item) (λ a. done (a ∷ attributes)))

pub record Expansion : Type 0 where
  pub queue : List Attribute
  pub retained : List Attribute
  pub active : Bool
  pub expansions : ℕ

abbrev pub Outcome : Type 0
Outcome = Next Expansion (Result CfgError ExpandedAttributes)

-- an error ends the loop
abbrev pub or_stop {ℓ} : {A : Type ℓ} → Result CfgError A → (A → Outcome) → Outcome
or_stop (error e) rest = stop (error e)
or_stop (done a) rest = rest a

-- the arm of `cfg_attr`
unfoldable pub expand_cfg_attr : CfgOptions → Expansion → MetaItems → Outcome
expand_cfg_attr options s (item_then condition (item_then item items)) =
    or_stop (cfg_expr condition) (λ c.
      if matches options c
      then or_stop (nested_attributes (item_then item items))
          (λ attributes. go (record s { queue = attributes ++ s.queue }))
      else go s)
expand_cfg_attr options s _ =
    stop (error (codes "cfg_attr requires a condition and at least one attribute"))

unfoldable pub expand_attribute : CfgOptions → Expansion → Attribute → Outcome
expand_attribute options s a =
    if bytes_eq a.name (codes "cfg")
    then or_stop (single_cfg_argument a.items)
        (λ c. go (record s { active = s.active && matches options c }))
    else if bytes_eq a.name (codes "cfg_attr")
    then expand_cfg_attr options s a.items
    else go (record s { retained = s.retained ++ a ∷ [] })

unfoldable pub expand_step : CfgOptions → Expansion → List Attribute → Outcome
expand_step options s [] = stop (done (record { active = s.active; attributes = s.retained }))
expand_step options s (a ∷ queue) =
    let expansions = s.expansions + 1 in
    if ltb max_expansions expansions
    then stop (error (codes "cfg_attr expansion limit exceeded"))
    else expand_attribute options (record s { queue = queue; expansions = expansions }) a

-- Each round but the last counts one expansion, of at most the limit.
unfoldable pub expand_cfg_attributes :
    List Attribute → CfgOptions → Call (Result CfgError ExpandedAttributes)
expand_cfg_attributes attributes options =
    loop (suc (suc max_expansions)) (λ s. ok (expand_step options s s.queue))
      (record { queue = attributes; retained = []; active = true; expansions = 0 })
