-- ===== src/Doc/Total.antt =====
-- crates/rua-ide/src/syntax/format/doc.rs: the rounds of `fits` and `print`, and the rule for what each
-- round of `print` keeps.
use mathlib.Core.List.{reverse}
use rua_lang.Base.{
  ℕ, ◌+◌, ◌-◌, ◌<◌, ◌≡◌, refl, Bool, List, [], ◌∷◌, ok, Returns, Returns-bind, Returns-both, go,
  Keeps, loop-Returns, if◌then◌else◌, arith,
}
use rua_lang.Doc.{
  Doc, nil, text, line, soft_line, hard_line, concat, indent, group, if_break, line_suffix, Docs,
  none_left, and_then, has_hardline, Mode, flat, broken,
}
use rua_lang.Doc.Printer.{
  Cmd, cmd, push_all, choose, fits_doc, fits_step, fits, size, size_all, stack_size, State,
  flush_suffixes, trim_trailing_spaces, new_line, print_doc, print_step, print,
}

stack_size-push_all :
    (ind : ℕ) (mode : Mode) (ds : Docs) (stack : List Cmd)
    → stack_size (push_all ind mode ds stack) ≡ size_all ds + stack_size stack
unfolding stack_size push_all size
stack_size-push_all ind mode none_left stack = omega arith
stack_size-push_all ind mode (and_then d ds) stack =
    omega (arith, stack_size-push_all ind mode ds stack)

size_pos : (d : Doc) → 0 < size d
unfolding size
size_pos nil = omega arith
size_pos _ = omega arith

size-choose : (mode : Mode) (b f : Doc) → size (choose mode b f) < size (if_break b f)
unfolding size
size-choose flat b f = omega arith
size-choose broken b f = omega arith

abbrev left : ℕ × List Cmd → ℕ
left (remaining, stack) = stack_size stack

abbrev Any : Bool → Type 0
Any b = Unit

fits_doc-Keeps :
    (remaining ind : ℕ) (mode : Mode) (stack : List Cmd) (d : Doc)
    → Keeps
        (λ a. Unit)
        Any
        left
        (remaining, cmd ind mode d ∷ stack)
        (fits_doc remaining ind mode stack d)
unfolding fits_doc stack_size size
fits_doc-Keeps remaining ind mode stack (concat ds) =
    (tt, omega (arith, stack_size-push_all ind mode ds stack))
fits_doc-Keeps remaining ind flat stack (if_break b f) = (tt, omega arith)
fits_doc-Keeps remaining ind broken stack (if_break b f) = (tt, omega arith)
fits_doc-Keeps remaining ind flat stack line = ground arith
fits_doc-Keeps remaining ind broken stack line = tt
fits_doc-Keeps remaining ind flat stack soft_line = ground arith
fits_doc-Keeps remaining ind broken stack soft_line = tt
fits_doc-Keeps remaining ind mode stack _ = ground arith

pub fits-Returns :
    (remaining ind : ℕ) (d : Doc) (rest : List Cmd) → Returns (fits remaining ind d rest) Any
unfolding fits
fits-Returns remaining ind d rest =
    loop-Returns (λ a. Unit) Any left fits_step step _ _ (omega arith) tt
  where
    step : (a : ℕ × List Cmd) → Unit {0} → Returns (fits_step a) (Keeps (λ a. Unit {0}) Any left a)
    step (remaining, []) h = unfold fits_step in (_, refl, tt)
    step (remaining, c ∷ stack) h =
        unfold fits_step in (_, refl, fits_doc-Keeps remaining c.ind c.mode stack c.doc)

-- A group is replaced by its content, in one of the modes.
pub print_doc_group :
    (width ind : ℕ) (mode : Mode) (s : State) (b : Doc)
    → (m : Mode) × (print_doc width ind mode s (group b)
        ≡ ok (record s { cmds = cmd ind m b ∷ s.cmds }))
unfolding print_doc
print_doc_group width ind mode s b =
    let (flat_ok, e, any) = fits-Returns (width - s.col) ind b s.cmds in
    (if has_hardline b then broken else if flat_ok then flat else broken, rw e (ground arith))

-- Each round returns, and less is left to print.
print_doc-smaller :
    (width ind : ℕ) (mode : Mode) (s : State) (d : Doc)
    → Returns (print_doc width ind mode s d) (λ s'. stack_size s'.cmds < size d + stack_size s.cmds)
unfolding print_doc size new_line stack_size
print_doc-smaller width ind mode s (group b) =
    let (m, e) = print_doc_group width ind mode s b in (_, e, omega arith)
print_doc-smaller width ind mode s (concat ds) =
    (_, refl, omega (arith, stack_size-push_all ind mode ds s.cmds))
print_doc-smaller width ind flat s (if_break b f) = (_, refl, omega arith)
print_doc-smaller width ind broken s (if_break b f) = (_, refl, omega arith)
print_doc-smaller width ind flat s line = (_, refl, omega arith)
print_doc-smaller width ind broken s line = (_, refl, omega arith)
print_doc-smaller width ind flat s soft_line = (_, refl, omega arith)
print_doc-smaller width ind broken s soft_line = (_, refl, omega arith)
print_doc-smaller width ind mode s nil = (_, refl, omega arith)
print_doc-smaller width ind mode s (text t) = (_, refl, omega arith)
print_doc-smaller width ind mode s hard_line = (_, refl, omega arith)
print_doc-smaller width ind mode s (indent b) = (_, refl, omega arith)
print_doc-smaller width ind mode s (line_suffix t) = (_, refl, omega arith)

abbrev pub start : Doc → State
start doc = record { out = []; col = 0; suffixes = []; cmds = cmd 0 broken doc ∷ [] }

-- What `print` returns from the state in which no command is left.
abbrev pub final : State → List ℕ
final s = reverse (trim_trailing_spaces (flush_suffixes s.out s.suffixes))

-- What holds at the start and is kept by each command, down to an empty stack, holds at the end of
-- `print`, which returns.
module _ (width : ℕ) (P : State → Type 0) (Q : List ℕ → Type 0)
    (keep : (c : Cmd) (s : State)
      → P (record s { cmds = c ∷ s.cmds })
      → Returns (print_doc width c.ind c.mode s c.doc) P)
    (finish : (s : State) → P (record s { cmds = [] }) → Q (final s)) where
  print_step-Keeps :
      (s : State) (cmds : List Cmd)
      → P (record s { cmds = cmds })
      → Returns
          (print_step width s cmds)
          (Keeps P Q (λ s'. stack_size s'.cmds) (record s { cmds = cmds }))
  unfolding print_step stack_size
  print_step-Keeps s [] p = (_, refl, finish s p)
  print_step-Keeps s (c ∷ cmds) p =
      let s' : State = record s { cmds = cmds } in
      Returns-bind _ _
        (Returns-both (print_doc width c.ind c.mode s' c.doc) (keep c s' p)
          (print_doc-smaller width c.ind c.mode s' c.doc))
        (λ r k. (go r, refl, k))

  pub print-Returns : (doc : Doc) → P (start doc) → Returns (print doc width) Q
  unfolding print stack_size
  print-Returns doc p =
      loop-Returns P Q (λ s. stack_size s.cmds) _ (λ s h. print_step-Keeps s s.cmds h) _ (start doc)
        (omega arith) p
