-- ===== src/Doc/NoTrailing.antt =====
-- crates/rua-ide/src/syntax/format/doc.rs: the blanks in the output of `print`, round by round.
use rua_lang.Base.{ℕ, ◌≡◌, refl, Bool, true, ◌&&◌, List, [], ◌∷◌, Returns, and_true, arith}
use mathlib.Core.List.{reverse}
use rua_lang.Doc.{
  Doc, nil, text, line, soft_line, hard_line, concat, indent, group, if_break, line_suffix, Docs,
  none_left, and_then, Mode, flat, broken,
}
use rua_lang.Doc.Printer.{Cmd, push_all, State, flush_suffixes, new_line, print_doc, print}
use rua_lang.Doc.Spaces.{
  no_trailing, one_line, all_one_line, tidy, no_newlines, no_newline-reverse, tidy-append,
  tidy-replicate, tidy-trim, tidy-flush, no_newlines-snoc, no_trailing-reverse_aux,
}
use rua_lang.Doc.Total.{print_doc_group, final, print-Returns}

stack_one_line : List Cmd → Bool
stack_one_line [] = true
stack_one_line (c ∷ cmds) = one_line c.doc && stack_one_line cmds

record Inv (s : State) : Type 0 where
  stack : stack_one_line s.cmds ≡ true
  suffixes : no_newlines s.suffixes ≡ true
  out : tidy s.out ≡ true

stack_one_line-push_all :
    (ind : ℕ) (mode : Mode) (ds : Docs) (stack : List Cmd)
    → all_one_line ds ≡ true
    → stack_one_line stack ≡ true
    → stack_one_line (push_all ind mode ds stack) ≡ true
unfolding stack_one_line push_all one_line
stack_one_line-push_all ind mode none_left stack h k = k
stack_one_line-push_all ind mode (and_then d ds) stack h k =
    let (first, rest) = (and_true (one_line d) (all_one_line ds)).0 h in
    (and_true (one_line d) _).1 (first, stack_one_line-push_all ind mode ds stack rest k)

new_line-Inv : (ind : ℕ) (s : State) → Inv s → Inv (new_line ind s)
unfolding new_line no_newlines
new_line-Inv ind s i =
    let trimmed =
      tidy-trim (flush_suffixes s.out s.suffixes) (tidy-flush s.suffixes s.out i.suffixes i.out) in
    record {
      stack = i.stack;
      suffixes = refl;
      out = tidy-replicate ind _ (unfold tidy in ground (arith, trimmed));
    }

-- A round, on its command's document and the state without that command.
print_doc-Inv :
    (width ind : ℕ) (mode : Mode) (s : State) (d : Doc)
    → one_line d ≡ true
    → Inv s
    → Returns (print_doc width ind mode s d) Inv
unfolding print_doc one_line stack_one_line
print_doc-Inv width ind mode s nil h i = (s, refl, i)
print_doc-Inv width ind flat s soft_line h i = (s, refl, i)
print_doc-Inv width ind flat s line h i =
    (_, refl, record { stack = i.stack; suffixes = i.suffixes; out = unfold tidy in i.out })
print_doc-Inv width ind broken s soft_line h i = (_, refl, new_line-Inv ind s i)
print_doc-Inv width ind broken s line h i = (_, refl, new_line-Inv ind s i)
print_doc-Inv width ind mode s hard_line h i = (_, refl, new_line-Inv ind s i)
print_doc-Inv width ind mode s (text t) h i = (
  _,
  refl,
  record {
    stack = i.stack;
    suffixes = i.suffixes;
    out = tidy-append (reverse t) s.out (no_newline-reverse t h) i.out;
  },
)
print_doc-Inv width ind mode s (concat ds) h i = (
  _,
  refl,
  record {
    stack = stack_one_line-push_all ind mode ds s.cmds h i.stack;
    suffixes = i.suffixes;
    out = i.out;
  },
)
print_doc-Inv width ind mode s (indent b) h i = (
  _,
  refl,
  record { stack = (and_true (one_line b) _).1 (h, i.stack); suffixes = i.suffixes; out = i.out },
)
print_doc-Inv width ind mode s (group b) h i =
    let (m, e) = print_doc_group width ind mode s b in
    (
      _,
      e,
      record {
        stack = (and_true (one_line b) _).1 (h, i.stack);
        suffixes = i.suffixes;
        out = i.out;
      },
    )
print_doc-Inv width ind flat s (if_break b f) h i = (
  _,
  refl,
  record {
    stack = (and_true (one_line f) _).1 (((and_true (one_line b) (one_line f)).0 h).1, i.stack);
    suffixes = i.suffixes;
    out = i.out;
  },
)
print_doc-Inv width ind broken s (if_break b f) h i = (
  _,
  refl,
  record {
    stack = (and_true (one_line b) _).1 (((and_true (one_line b) (one_line f)).0 h).0, i.stack);
    suffixes = i.suffixes;
    out = i.out;
  },
)
print_doc-Inv width ind mode s (line_suffix t) h i = (
  _,
  refl,
  record { stack = i.stack; suffixes = no_newlines-snoc s.suffixes t i.suffixes h; out = i.out },
)

final-no_trailing : (s : State) → Inv s → no_trailing (final s) ≡ true
final-no_trailing s i =
    let trimmed =
      tidy-trim (flush_suffixes s.out s.suffixes) (tidy-flush s.suffixes s.out i.suffixes i.out) in
    no_trailing-reverse_aux _ [] trimmed.0 (ground (arith, trimmed.1)) (unfold no_trailing in refl)

-- For every document whose texts hold no line break, and every width, `print` returns, and in what
-- it returns no blank stands before a line break or at the end.
pub print-no_trailing :
    (doc : Doc) (width : ℕ)
    → one_line doc ≡ true
    → Returns (print doc width) (λ out. no_trailing out ≡ true)
unfolding stack_one_line tidy no_newlines
print-no_trailing doc width h =
    print-Returns width Inv (λ out. no_trailing out ≡ true)
      (λ c s i.
        let (first, rest) = (and_true (one_line c.doc) (stack_one_line s.cmds)).0 i.stack in
        print_doc-Inv width c.ind c.mode s c.doc first
          (record { stack = rest; suffixes = i.suffixes; out = i.out }))
      (λ s i. final-no_trailing (record s { cmds = [] }) i) doc
      (record { stack = (and_true (one_line doc) true).1 (h, refl); suffixes = refl; out = refl })
