-- ===== src/Cfg.antt =====
-- crates/rua-common/src/core.rs: configuration attributes. A string is the list of its bytes; the
-- sets of strings of the options are lists, read by membership only.
pub mod Expand
pub mod Expands
pub mod Rounds
pub mod Limit
use rua_lang.Base.{
  ℕ, ◌+◌, Bool, true, false, not, ◌&&◌, ◌||◌, List, [], ◌∷◌, ◌++◌, Option, none, some,
  if◌then◌else◌, codes, Result, error, done, on_done,
}
use rua_lang.Lex.Kind.{bytes_eq}

-- an `i64`
pub data ℤ : Type 0 where
  pos negsuc : ℕ → ℤ

-- an error is its message
abbrev pub CfgError : Type 0
CfgError = List ℕ

mutual
  pub data MetaValue : Type 0 where
    string : List ℕ → MetaValue
    bool : Bool → MetaValue
    integer : ℤ → MetaValue
    float : List ℕ → MetaValue
    path : List ℕ → MetaValue
    values : MetaValues → MetaValue

  pub data MetaValues : Type 0 where
    no_value : MetaValues
    value_then : MetaValue → MetaValues → MetaValues

mutual
  pub data MetaItem : Type 0 where
    word : List ℕ → MetaItem
    name_value : List ℕ → MetaValue → MetaItem
    named_list : List ℕ → MetaItems → MetaItem
    literal : MetaValue → MetaItem

  pub data MetaItems : Type 0 where
    no_item : MetaItems
    item_then : MetaItem → MetaItems → MetaItems

pub record Attribute : Type 0 where
  pub name : List ℕ
  pub items : MetaItems

mutual
  pub data CfgExpr : Type 0 where
    truth : Bool → CfgExpr
    flag : List ℕ → CfgExpr
    key_value : List ℕ → List ℕ → CfgExpr
    all_of : CfgExprs → CfgExpr
    any_of : CfgExprs → CfgExpr
    negated : CfgExpr → CfgExpr

  pub data CfgExprs : Type 0 where
    no_expr : CfgExprs
    expr_then : CfgExpr → CfgExprs → CfgExprs

-- `values` holds its pairs of a key and one of its values.
pub record CfgOptions : Type 0 where
  pub flags : List (List ℕ)
  pub values : List (List ℕ × List ℕ)

unfoldable pub contains : List (List ℕ) → List ℕ → Bool
contains [] name = false
contains (x ∷ xs) name = bytes_eq x name || contains xs name

unfoldable pub contains_pair : List (List ℕ × List ℕ) → List ℕ → List ℕ → Bool
contains_pair [] key value = false
contains_pair ((k, v) ∷ pairs) key value =
    (bytes_eq k key && bytes_eq v value) || contains_pair pairs key value

unfoldable pub insert_flag : List ℕ → CfgOptions → CfgOptions
insert_flag name options = record options { flags = name ∷ options.flags }

unfoldable pub insert_value : List ℕ → List ℕ → CfgOptions → CfgOptions
insert_value key value options = record options { values = (key, value) ∷ options.values }

unfoldable pub insert_feature : List ℕ → CfgOptions → CfgOptions
insert_feature feature options = insert_value (codes "feature") feature options

unfoldable pub has_flag : CfgOptions → List ℕ → Bool
has_flag options name = contains options.flags name

unfoldable pub has_value : CfgOptions → List ℕ → List ℕ → Bool
has_value options key value = contains_pair options.values key value

unfoldable mutual
  pub matches : CfgOptions → CfgExpr → Bool
  matches options (truth b) = b
  matches options (flag name) = has_flag options name
  matches options (key_value key value) = has_value options key value
  matches options (all_of exprs) = all_match options exprs
  matches options (any_of exprs) = any_match options exprs
  matches options (negated expr) = not (matches options expr)

  pub all_match : CfgOptions → CfgExprs → Bool
  all_match options no_expr = true
  all_match options (expr_then expr exprs) = matches options expr && all_match options exprs

  pub any_match : CfgOptions → CfgExprs → Bool
  any_match options no_expr = false
  any_match options (expr_then expr exprs) = matches options expr || any_match options exprs

abbrev pub condition_error : List ℕ
condition_error = codes "cfg conditions only accept flags, string key/value pairs, and booleans"

unfoldable mutual
  pub cfg_expr : MetaItem → Result CfgError CfgExpr
  cfg_expr (literal (bool b)) = done (truth b)
  cfg_expr (word name) = done (flag name)
  cfg_expr (name_value name (string value)) = done (key_value name value)
  cfg_expr (name_value name (bool b)) = done (if b then flag name else negated (flag name))
  cfg_expr (named_list name items) =
      let exprs = cfg_exprs items in
      let inner = cfg_not items in
      if bytes_eq name (codes "all")
      then on_done exprs (λ es. done (all_of es))
      else if bytes_eq name (codes "any")
      then on_done exprs (λ es. done (any_of es))
      else if bytes_eq name (codes "not")
      then inner
      else error
          (codes "unsupported cfg predicate `" ++ name ++ codes "`; expected all, any, or not")
  cfg_expr (name_value name _) = error condition_error
  cfg_expr (literal _) = error condition_error

  -- `items.iter().map(cfg_expr).collect()`
  pub cfg_exprs : MetaItems → Result CfgError CfgExprs
  cfg_exprs no_item = done no_expr
  cfg_exprs (item_then item items) =
      let rest = cfg_exprs items in
      on_done (cfg_expr item) (λ e. on_done rest (λ es. done (expr_then e es)))

  -- the arm of `not`
  pub cfg_not : MetaItems → Result CfgError CfgExpr
  cfg_not (item_then item no_item) = on_done (cfg_expr item) (λ e. done (negated e))
  cfg_not _ = error (codes "not requires exactly one condition")
