-- ===== src/Doc.antt =====
-- crates/rua-ide/src/syntax/format/doc.rs: the pretty printer's documents. A text is the list of its
-- characters, so `chars().count()` is its length.
pub mod Printer
pub mod Total
pub mod Spaces
pub mod Content
pub mod InOrder
pub mod NoTrailing
use rua_lang.Base.{ℕ, suc, ◌+◌, Bool, true, false, ◌||◌, List, [], ◌∷◌}

abbrev pub indent_width : ℕ
indent_width = 4

abbrev pub default_width : ℕ
default_width = 100

mutual
  pub data Doc : Type 0 where
    nil : Doc
    text : List ℕ → Doc
    line soft_line hard_line : Doc
    concat : Docs → Doc
    indent : Doc → Doc
    group : Doc → Doc
    if_break : Doc → Doc → Doc
    line_suffix : List ℕ → Doc

  pub data Docs : Type 0 where
    none_left : Docs
    and_then : Doc → Docs → Docs

unfoldable mutual
  pub has_hardline : Doc → Bool
  has_hardline nil = false
  has_hardline (text s) = false
  has_hardline line = false
  has_hardline soft_line = false
  has_hardline hard_line = true
  has_hardline (concat ds) = any_hardline ds
  has_hardline (indent d) = has_hardline d
  has_hardline (group d) = has_hardline d
  has_hardline (if_break broken flat) = has_hardline flat
  has_hardline (line_suffix s) = false

  pub any_hardline : Docs → Bool
  any_hardline none_left = false
  any_hardline (and_then d ds) = has_hardline d || any_hardline ds

-- `Doc::join`, behind its first item
unfoldable pub join_rest : Doc → Docs → Docs
join_rest sep none_left = none_left
join_rest sep (and_then d ds) = and_then sep (and_then d (join_rest sep ds))

unfoldable pub join : Doc → Docs → Doc
join sep none_left = concat none_left
join sep (and_then d ds) = concat (and_then d (join_rest sep ds))

pub data Mode : Type 0 where
  flat broken : Mode
