-- ===== src/Text/Lines.antt =====
-- Methods of Rust's `str`: the lines of a text that is put together from lines.
use rua_lang.Base.{
  ℕ, ◌≡◌, refl, ◌∙◌, ap, Bool, true, false, not, ◌&&◌, ◌||◌, and_true, List, [], ◌∷◌, ◌++◌, ◌==◌,
  arith,
}
use rua_lang.Text.{lines, push_front}

-- a text without `\r` and `\n`
unfoldable pub no_break : List ℕ → Bool
no_break [] = true
no_break (c ∷ cs) = not (c == b'\n' || c == b'\r') && no_break cs

pub no_break-append :
    (xs ys : List ℕ) → no_break xs ≡ true → no_break ys ≡ true → no_break (xs ++ ys) ≡ true
unfolding no_break
no_break-append [] ys h k = k
no_break-append (x ∷ xs) ys h k = ground (arith, no_break-append xs ys)

lines-push :
    (c d : ℕ) (cs : List ℕ)
    → not (c == b'\n' || c == b'\r') ≡ true
    → lines (c ∷ d ∷ cs) ≡ push_front c (lines (d ∷ cs))
unfolding lines
lines-push c d cs h =
    let no_lf : (c == b'\n') ≡ false = ground arith in
    let no_cr : (c == b'\r') ≡ false = ground arith in rw (no_lf, no_cr) refl

-- A line and its `\n` in front of a text are the first of its lines.
pub lines-line :
    (line rest : List ℕ) → no_break line ≡ true → lines (line ++ b'\n' ∷ rest) ≡ line ∷ lines rest
unfolding lines no_break push_front
lines-line [] [] h = refl
lines-line [] (d ∷ cs) h = refl
lines-line (c ∷ []) rest h =
    lines-push c b'\n' rest (ground arith) ∙ ap (push_front c) (lines-line [] rest refl)
lines-line (c ∷ d ∷ line) rest h =
    let (first, more) = (and_true (not (c == b'\n' || c == b'\r')) (no_break (d ∷ line))).0 h in
    lines-push c d (line ++ b'\n' ∷ rest) first
    ∙ ap (push_front c) (lines-line (d ∷ line) rest more)
