-- ===== src/Tests/Cfg.antt =====
-- crates/rua-common/src/core.rs, run on attributes like those of its own tests.
use rua_lang.Base.{◌≡◌, refl, false, List, [], ◌∷◌, Call, ok, loop, leb, if◌then◌else◌, codes}
use rua_lang.Cfg.{
  word, named_list, no_item, item_then, Attribute, flag, CfgOptions, contains, has_flag, matches,
  cfg_expr, CfgError,
}
use rua_lang.Base.{Result, done}
use rua_lang.Cfg.Expand.{
  ExpandedAttributes, max_expansions, single_cfg_argument, attribute_from_meta, nested_attributes,
  expand_cfg_attr, expand_attribute, expand_step, expand_cfg_attributes,
}
use rua_lang.Cfg.Expands.{Expands, nothing, keeps, tests, opens}
use rua_lang.Cfg.Limit.{expand_cfg_attributes-Expands}
use rua_lang.Cfg.Rounds.{limit_exceeded}
use rua_lang.Lex.Kind.{bytes_eq}

abbrev debug : CfgOptions
debug = record { flags = codes "debug" ∷ []; values = [] }

-- `cfg_attr(debug, inline, cfg(test))`
abbrev nested : Attribute
nested = record {
  name = codes "cfg_attr";
  items = item_then (word (codes "debug")) (
      item_then (word (codes "inline"))
        (item_then (named_list (codes "cfg") (item_then (word (codes "test")) no_item)) no_item));
}

abbrev inline : Attribute
inline = record { name = codes "inline"; items = no_item }

expanded : List Attribute → Call (Result CfgError ExpandedAttributes)
unfolding expand_cfg_attributes loop expand_step expand_attribute expand_cfg_attr bytes_eq
    single_cfg_argument nested_attributes attribute_from_meta cfg_expr matches has_flag contains
expanded attributes = expand_cfg_attributes attributes debug

expanded-nested :
    expanded (nested ∷ []) ≡ ok (done (record { active = false; attributes = inline ∷ [] }))
unfolding expanded
expanded-nested = refl

nested-Expands : Expands debug (nested ∷ []) 3 (inline ∷ []) false
unfolding bytes_eq single_cfg_argument nested_attributes attribute_from_meta cfg_expr matches
    has_flag contains
nested-Expands =
    opens nested (word (codes "debug")) (word (codes "inline"))
      (item_then (named_list (codes "cfg") (item_then (word (codes "test")) no_item)) no_item)
      (flag (codes "debug")) _ refl refl refl refl refl refl
      (keeps inline refl refl (tests _ (flag (codes "test")) refl refl nothing)) nothing

expand_cfg_attributes-Expands_example :
    expand_cfg_attributes (nested ∷ []) debug
    ≡ ok (
        if leb 3 max_expansions
        then done (record { active = false; attributes = inline ∷ [] })
        else limit_exceeded)
expand_cfg_attributes-Expands_example =
    expand_cfg_attributes-Expands debug (nested ∷ []) (inline ∷ []) 3 false nested-Expands
