-- ===== src/Tests/Doc.antt =====
-- crates/rua-ide/src/syntax/format/doc.rs, run on documents of its own tests, and the theorems there.
use rua_lang.Base.{ℕ, ◌≡◌, refl, true, List, Call, ok, Returns, loop, codes}
use rua_lang.Doc.{
  Doc, nil, text, line, soft_line, hard_line, concat, indent, group, if_break, line_suffix,
  none_left, and_then, has_hardline,
}
use rua_lang.Doc.Content.{visible, Content, no_suffix}
use rua_lang.Doc.InOrder.{print-Content}
use rua_lang.Doc.NoTrailing.{print-no_trailing}
use rua_lang.Doc.Printer.{
  push_all, fits_doc, fits_step, fits, size, stack_size, flush_suffixes, trim_trailing_spaces,
  new_line, print_doc, print_step, print,
}
use rua_lang.Doc.Spaces.{no_trailing, no_newline, one_line}

-- `[`, a broken or flat list with a trailing comma when broken, `]`
abbrev items : Doc
items = group (
    concat (
      and_then (text (codes "[")) (
        and_then
          (indent (
            concat (
              and_then soft_line (
                and_then
                  (concat (
                    and_then (text (codes "aaaa")) (
                      and_then (concat (and_then (text (codes ",")) (and_then line none_left)))
                        (and_then (text (codes "bbbb")) none_left))))
                  (and_then (if_break (text (codes ",")) nil) none_left)))))
          (and_then soft_line (and_then (text (codes "]")) none_left)))))

run : Doc → ℕ → Call (List ℕ)
unfolding print loop print_step print_doc fits fits_step fits_doc push_all size stack_size
    flush_suffixes trim_trailing_spaces new_line has_hardline
run = print

run-items-flat : run items 80 ≡ ok (codes "[aaaa, bbbb]")
unfolding run
run-items-flat = refl

run-items-broken : run items 6 ≡ ok (codes "[\n    aaaa,\n    bbbb,\n]")
unfolding run
run-items-broken = refl

abbrev commented : Doc
commented = concat (
    and_then (text (codes "local x = 1 ")) (
      and_then (line_suffix (codes " -- one"))
        (and_then hard_line (and_then (text (codes "local y")) none_left))))

run-commented : run commented 80 ≡ ok (codes "local x = 1  -- one\nlocal y")
unfolding run
run-commented = refl

print-Content_example : Returns (print items 6) (λ out. Content items (visible out))
unfolding no_suffix
print-Content_example = print-Content items 6 refl

print-no_trailing_example : Returns (print commented 80) (λ out. no_trailing out ≡ true)
unfolding one_line no_newline
print-no_trailing_example = print-no_trailing commented 80 refl
