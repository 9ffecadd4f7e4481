-- ===== src/Doc/InOrder.antt =====
-- crates/rua-ide/src/syntax/format/doc.rs: the text that `print` has shown, and the text left to show.
use mathlib.Core.Bool.{false≢true}
use mathlib.Core.List.{reverse}
use rua_lang.Base.{
  ℕ, ◌+◌, ◌≡◌, refl, ◌∙◌, ap, inl, inr, true, [], ◌∷◌, ◌++◌, append-nil, append_assoc, Returns,
  and_true,
}
use rua_lang.Doc.{
  Doc, nil, text, line, soft_line, hard_line, concat, indent, group, if_break, line_suffix, Mode,
  flat, broken,
}
use rua_lang.Doc.Content.{
  visible, no_suffix, Content, StackContent, stack_no_suffix, visible-trim, visible-reverse, shown,
  shown-push_str, shown-new_line, Contents-push_all, stack_no_suffix-push_all, Inv, Inv-next,
  silent, replaced,
}
use rua_lang.Doc.Printer.{
  cmd, State, flush_suffixes, trim_trailing_spaces, new_line, print_doc, print,
}
use rua_lang.Doc.Total.{print_doc_group, final, print-Returns}

module _ (doc : Doc) (width : ℕ) where
  abbrev Keeps : ℕ → Mode → State → Doc → Type 0
  Keeps ind mode s d =
      Inv doc (record s { cmds = cmd ind mode d ∷ s.cmds })
      → Returns (print_doc width ind mode s d) (Inv doc)

  head_plain :
      (ind : ℕ) (mode : Mode) (s : State) (d : Doc)
      → Inv doc (record s { cmds = cmd ind mode d ∷ s.cmds })
      → no_suffix d ≡ true
  unfolding stack_no_suffix
  head_plain ind mode s d i = ((and_true (no_suffix d) _).0 i.plain).0

  tail_plain :
      (ind : ℕ) (mode : Mode) (s : State) (d : Doc)
      → Inv doc (record s { cmds = cmd ind mode d ∷ s.cmds })
      → stack_no_suffix s.cmds ≡ true
  unfolding stack_no_suffix
  tail_plain ind mode s d i = ((and_true (no_suffix d) _).0 i.plain).1

  breaks :
      (ind : ℕ) (mode : Mode) (s : State) (d : Doc)
      → Inv doc (record s { cmds = cmd ind mode d ∷ s.cmds })
      → Content d []
      → Inv doc (new_line ind s)
  unfolding new_line
  breaks ind mode s d i empty =
      silent doc (cmd ind mode d) s (new_line ind s) i empty refl refl
        (shown-new_line ind s i.no_suffixes)

  print_doc-Keeps : (ind : ℕ) (mode : Mode) (s : State) (d : Doc) → Keeps ind mode s d
  unfolding print_doc Content no_suffix
  print_doc-Keeps ind mode s nil i =
      (s, refl, silent doc (cmd ind mode nil) s s i refl refl i.no_suffixes refl)
  print_doc-Keeps ind flat s soft_line i =
      (s, refl, silent doc (cmd ind flat soft_line) s s i refl refl i.no_suffixes refl)
  print_doc-Keeps ind flat s line i = (
    _,
    refl,
    silent doc (cmd ind flat line) s (record s { out = b' ' ∷ s.out; col = s.col + 1 }) i refl refl
        i.no_suffixes (unfold shown visible in refl),
  )
  print_doc-Keeps ind broken s soft_line i = (_, refl, breaks ind broken s soft_line i refl)
  print_doc-Keeps ind broken s line i = (_, refl, breaks ind broken s line i refl)
  print_doc-Keeps ind mode s hard_line i = (_, refl, breaks ind mode s hard_line i refl)
  print_doc-Keeps ind mode s (text t) i = (
    _,
    refl,
    Inv-next doc (cmd ind mode (text t)) s _ i (tail_plain ind mode s (text t) i) i.no_suffixes
        (λ cs h. (
          visible t,
          cs,
          refl,
          h,
          ap (λ ys. ys ++ cs) (shown-push_str s.out t) ∙ append_assoc (shown s.out) (visible t) cs,
        )),
  )
  print_doc-Keeps ind mode s (concat ds) i = (
    _,
    refl,
    Inv-next doc (cmd ind mode (concat ds)) s _ i
        (stack_no_suffix-push_all ind mode ds s.cmds (
          (and_true _ _).1
            (head_plain ind mode s (concat ds) i, tail_plain ind mode s (concat ds) i)))
        i.no_suffixes
        (λ cs h.
          let (a, b, ha, hb, e) = Contents-push_all ind mode ds s.cmds cs h in
          (a, b, ha, hb, ap (λ ys. shown s.out ++ ys) e)),
  )
  print_doc-Keeps ind mode s (indent b) i = (
    _,
    refl,
    replaced doc (cmd ind mode (indent b)) s _ mode b i (head_plain ind mode s (indent b) i)
        (λ a h. h),
  )
  print_doc-Keeps ind mode s (group b) i =
      let (m, e) = print_doc_group width ind mode s b in
      (
        _,
        e,
        replaced doc (cmd ind mode (group b)) s ind m b i (head_plain ind mode s (group b) i)
            (λ a h. h),
      )
  print_doc-Keeps ind flat s (if_break b f) i = (
    _,
    refl,
    replaced doc (cmd ind flat (if_break b f)) s ind flat f i
        ((and_true (no_suffix b) (no_suffix f)).0 (head_plain ind flat s (if_break b f) i)).1
        (λ a h. inr h),
  )
  print_doc-Keeps ind broken s (if_break b f) i = (
    _,
    refl,
    replaced doc (cmd ind broken (if_break b f)) s ind broken b i
        ((and_true (no_suffix b) (no_suffix f)).0 (head_plain ind broken s (if_break b f) i)).0
        (λ a h. inl h),
  )
  print_doc-Keeps ind mode s (line_suffix t) i =
      absurd (false≢true (head_plain ind mode s (line_suffix t) i))

visible-final : (s : State) → s.suffixes ≡ [] → visible (final s) ≡ shown s.out ++ []
unfolding shown flush_suffixes
visible-final s e =
    rw (e, append-nil)
      (visible-reverse (trim_trailing_spaces s.out) ∙ ap reverse (visible-trim s.out))

-- For every document without a line suffix and every width, `print` returns, and what it returns,
-- blanks and line breaks removed, is the text of the document in order, with exactly one branch of
-- each `if_break`.
pub print-Content :
    (doc : Doc) (width : ℕ)
    → no_suffix doc ≡ true
    → Returns (print doc width) (λ out. Content doc (visible out))
unfolding StackContent shown stack_no_suffix visible
print-Content doc width plain =
    print-Returns width (Inv doc) (λ out. Content doc (visible out))
      (λ c s i. print_doc-Keeps doc width c.ind c.mode s c.doc i)
      (λ s i. rw (visible-final s i.no_suffixes) (i.promise [] refl)) doc
      (record {
        plain = (and_true (no_suffix doc) true).1 (plain, refl);
        no_suffixes = refl;
        promise = λ cs (a, b, ha, e, e'). rw (e', e, append-nil) ha;
      })
