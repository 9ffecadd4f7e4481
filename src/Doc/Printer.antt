-- ===== src/Doc/Printer.antt =====
-- crates/rua-ide/src/syntax/format/doc.rs: `print` and `fits`. A stack is a list with its top first.
-- The output is kept last character first, and turned round at the end.
use rua_lang.Base.{
  ℕ, suc, ◌+◌, ◌-◌, Bool, true, false, List, [], ◌∷◌, ◌++◌, Call, ok, ◌>>=◌, Next, go, stop, loop,
  ◌==◌, leb, if◌then◌else◌, length, replicate,
}
use mathlib.Core.List.{reverse}
use rua_lang.Doc.{
  Doc, nil, text, line, soft_line, hard_line, concat, indent, group, if_break, line_suffix, Docs,
  none_left, and_then, has_hardline, Mode, flat, broken, indent_width,
}

pub record Cmd : Type 0 where
  pub ind : ℕ
  pub mode : Mode
  pub doc : Doc

abbrev pub cmd : ℕ → Mode → Doc → Cmd
cmd ind mode doc = record { ind = ind; mode = mode; doc = doc }

-- `for c in ds.iter().rev() { stack.push((ind, mode, c)); }`
unfoldable pub push_all : ℕ → Mode → Docs → List Cmd → List Cmd
push_all ind mode none_left stack = stack
push_all ind mode (and_then d ds) stack = cmd ind mode d ∷ push_all ind mode ds stack

abbrev pub choose : Mode → Doc → Doc → Doc
choose broken b f = b
choose flat b f = f

-- The loop of `fits` on `remaining` and its stack. `remaining` is signed in the source; the round in
-- which it turns negative is the last, and answers `false`.
abbrev pub spend : ℕ → ℕ → List Cmd → Next (ℕ × List Cmd) Bool
spend remaining n stack = if leb n remaining then go (remaining - n, stack) else stop false

unfoldable pub fits_doc : ℕ → ℕ → Mode → List Cmd → Doc → Next (ℕ × List Cmd) Bool
fits_doc remaining ind mode stack nil = go (remaining, stack)
fits_doc remaining ind mode stack (text s) = spend remaining (length s) stack
fits_doc remaining ind mode stack (concat ds) = go (remaining, push_all ind mode ds stack)
fits_doc remaining ind mode stack (indent b) =
    go (remaining, cmd (ind + indent_width) mode b ∷ stack)
fits_doc remaining ind mode stack (group b) = go (remaining, cmd ind mode b ∷ stack)
fits_doc remaining ind mode stack (if_break b f) =
    go (remaining, cmd ind mode (choose mode b f) ∷ stack)
fits_doc remaining ind mode stack (line_suffix s) = go (remaining, stack)
fits_doc remaining ind mode stack hard_line = stop true
fits_doc remaining ind flat stack line = spend remaining 1 stack
fits_doc remaining ind broken stack line = stop true
fits_doc remaining ind flat stack soft_line = go (remaining, stack)
fits_doc remaining ind broken stack soft_line = stop true

unfoldable pub fits_step : ℕ × List Cmd → Call (Next (ℕ × List Cmd) Bool)
fits_step (remaining, []) = ok (stop true)
fits_step (remaining, c ∷ stack) = ok (fits_doc remaining c.ind c.mode stack c.doc)

-- What is left to process: the fuel of both loops.
unfoldable mutual
  pub size : Doc → ℕ
  size nil = 1
  size (text s) = 1
  size line = 1
  size soft_line = 1
  size hard_line = 1
  size (concat ds) = suc (size_all ds)
  size (indent d) = suc (size d)
  size (group d) = suc (size d)
  size (if_break b f) = suc (size b + size f)
  size (line_suffix s) = 1

  pub size_all : Docs → ℕ
  size_all none_left = 0
  size_all (and_then d ds) = size d + size_all ds

unfoldable pub stack_size : List Cmd → ℕ
stack_size [] = 0
stack_size (c ∷ stack) = size c.doc + stack_size stack

unfoldable pub fits : ℕ → ℕ → Doc → List Cmd → Call Bool
fits remaining ind doc rest =
    let stack = cmd ind flat doc ∷ rest in
    loop (suc (stack_size stack)) fits_step (remaining, stack)

-- The state of `print`; `suffixes` in the order of their pushes.
pub record State : Type 0 where
  pub out : List ℕ
  pub col : ℕ
  pub suffixes : List (List ℕ)
  pub cmds : List Cmd

-- `out.push_str(s)`
abbrev pub push_str : List ℕ → List ℕ → List ℕ
push_str out s = reverse s ++ out

unfoldable pub flush_suffixes : List ℕ → List (List ℕ) → List ℕ
flush_suffixes out [] = out
flush_suffixes out (s ∷ suffixes) = flush_suffixes (push_str out s) suffixes

unfoldable pub trim_trailing_spaces : List ℕ → List ℕ
trim_trailing_spaces [] = []
trim_trailing_spaces (c ∷ out) = if c == b' ' then trim_trailing_spaces out else c ∷ out

-- the branch of a line that breaks
unfoldable pub new_line : ℕ → State → State
new_line ind s = record s {
  out = replicate ind b' ' ++ b'\n' ∷ trim_trailing_spaces (flush_suffixes s.out s.suffixes);
  suffixes = [];
  col = ind;
}

unfoldable pub print_doc : ℕ → ℕ → Mode → State → Doc → Call State
print_doc width ind mode s nil = ok s
print_doc width ind mode s (text t) =
    ok (record s { out = push_str s.out t; col = s.col + length t })
print_doc width ind mode s (concat ds) = ok (record s { cmds = push_all ind mode ds s.cmds })
print_doc width ind mode s (indent b) =
    ok (record s { cmds = cmd (ind + indent_width) mode b ∷ s.cmds })
print_doc width ind mode s (group b) =
    if has_hardline b
    then ok (record s { cmds = cmd ind broken b ∷ s.cmds })
    else (fits (width - s.col) ind b s.cmds >>= λ flat_ok.
        ok (record s { cmds = cmd ind (if flat_ok then flat else broken) b ∷ s.cmds }))
print_doc width ind mode s (if_break b f) =
    ok (record s { cmds = cmd ind mode (choose mode b f) ∷ s.cmds })
print_doc width ind mode s (line_suffix t) = ok (record s { suffixes = s.suffixes ++ t ∷ [] })
print_doc width ind flat s line = ok (record s { out = b' ' ∷ s.out; col = s.col + 1 })
print_doc width ind broken s line = ok (new_line ind s)
print_doc width ind flat s soft_line = ok s
print_doc width ind broken s soft_line = ok (new_line ind s)
print_doc width ind mode s hard_line = ok (new_line ind s)

-- one round of the loop of `print`; at the end the suffixes left are written
unfoldable pub print_step : ℕ → State → List Cmd → Call (Next State (List ℕ))
print_step width s [] = ok (stop (reverse (trim_trailing_spaces (flush_suffixes s.out s.suffixes))))
print_step width s (c ∷ cmds) =
    print_doc width c.ind c.mode (record s { cmds = cmds }) c.doc >>= λ s'. ok (go s')

unfoldable pub print : Doc → ℕ → Call (List ℕ)
print doc width =
    loop (suc (suc (size doc))) (λ s. print_step width s s.cmds)
      (record { out = []; col = 0; suffixes = []; cmds = cmd 0 broken doc ∷ [] })
