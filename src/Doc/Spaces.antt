-- ===== src/Doc/Spaces.antt =====
-- crates/rua-ide/src/syntax/format/doc.rs: blanks before line breaks, in an output and in its reverse.
use mathlib.Core.List.{reverse, reverse-append, reverse_aux}
use rua_lang.Base.{
  ℕ, zero, suc, ◌≡◌, refl, Bool, true, false, not, ◌&&◌, List, [], ◌∷◌, ◌++◌, ◌==◌, and_true,
  replicate, arith,
}
use rua_lang.Doc.{
  Doc, text, concat, indent, group, if_break, line_suffix, Docs, none_left, and_then,
}
use rua_lang.Doc.Printer.{push_str, flush_suffixes, trim_trailing_spaces}

-- Whether a line ends before these characters.
abbrev pub line_ends : List ℕ → Bool
line_ends [] = true
line_ends (c ∷ cs) = c == b'\n'

-- No blank stands before a line break or the end.
unfoldable pub no_trailing : List ℕ → Bool
no_trailing [] = true
no_trailing (c ∷ cs) = not (c == b' ' && line_ends cs) && no_trailing cs

unfoldable pub no_newline : List ℕ → Bool
no_newline [] = true
no_newline (c ∷ cs) = not (c == b'\n') && no_newline cs

-- The documents whose texts hold no line break, as the type demands.
unfoldable mutual
  pub one_line : Doc → Bool
  one_line (text s) = no_newline s
  one_line (line_suffix s) = no_newline s
  one_line (concat ds) = all_one_line ds
  one_line (indent d) = one_line d
  one_line (group d) = one_line d
  one_line (if_break b f) = one_line b && one_line f
  one_line _ = true

  pub all_one_line : Docs → Bool
  all_one_line none_left = true
  all_one_line (and_then d ds) = one_line d && all_one_line ds

abbrev pub starts_blank : List ℕ → Bool
starts_blank [] = false
starts_blank (c ∷ cs) = c == b' '

-- The same as `no_trailing` of an output kept last character first, but for its last line.
unfoldable pub tidy : List ℕ → Bool
tidy [] = true
tidy (c ∷ out) = not (c == b'\n' && starts_blank out) && tidy out

no_newline-append :
    (xs ys : List ℕ) → no_newline xs ≡ true → no_newline ys ≡ true → no_newline (xs ++ ys) ≡ true
unfolding no_newline
no_newline-append [] ys h k = k
no_newline-append (x ∷ xs) ys h k = ground (arith, no_newline-append xs ys)

pub no_newline-reverse : (xs : List ℕ) → no_newline xs ≡ true → no_newline (reverse xs) ≡ true
no_newline-reverse [] h = h
no_newline-reverse (x ∷ xs) h =
    let (first, rest) = (and_true (not (x == b'\n')) (no_newline xs)).0 (unfold no_newline in h) in
    rw (reverse-append (x ∷ []) xs) (
      no_newline-append (reverse xs) (x ∷ []) (no_newline-reverse xs rest)
        (unfold no_newline in (and_true _ true).1 (first, refl)))

pub tidy-append :
    (xs out : List ℕ) → no_newline xs ≡ true → tidy out ≡ true → tidy (xs ++ out) ≡ true
unfolding no_newline tidy
tidy-append [] out h k = k
tidy-append (x ∷ xs) out h k = ground (arith, tidy-append xs out)

pub tidy-replicate :
    (n : ℕ) (out : List ℕ) → tidy out ≡ true → tidy (replicate n b' ' ++ out) ≡ true
unfolding tidy
tidy-replicate zero out h = h
tidy-replicate (suc n) out h = tidy-replicate n out h

pub tidy-trim :
    (out : List ℕ)
    → tidy out ≡ true
    → (tidy (trim_trailing_spaces out) ≡ true) × (starts_blank (trim_trailing_spaces out) ≡ false)
unfolding tidy trim_trailing_spaces
tidy-trim [] h = (refl, refl)
tidy-trim (c ∷ out) h = ground (arith, tidy-trim out)

unfoldable pub no_newlines : List (List ℕ) → Bool
no_newlines [] = true
no_newlines (s ∷ ss) = no_newline s && no_newlines ss

pub tidy-flush :
    (suffixes : List (List ℕ)) (out : List ℕ)
    → no_newlines suffixes ≡ true
    → tidy out ≡ true
    → tidy (flush_suffixes out suffixes) ≡ true
unfolding no_newlines flush_suffixes
tidy-flush [] out h k = k
tidy-flush (s ∷ ss) out h k =
    let (first, rest) = (and_true (no_newline s) (no_newlines ss)).0 h in
    tidy-flush ss (push_str out s) rest (tidy-append (reverse s) out (no_newline-reverse s first) k)

pub no_newlines-snoc :
    (ss : List (List ℕ)) (s : List ℕ)
    → no_newlines ss ≡ true
    → no_newline s ≡ true
    → no_newlines (ss ++ s ∷ []) ≡ true
unfolding no_newlines
no_newlines-snoc [] s h k = (and_true (no_newline s) true).1 (k, refl)
no_newlines-snoc (t ∷ ss) s h k =
    let (first, rest) = (and_true (no_newline t) (no_newlines ss)).0 h in
    (and_true (no_newline t) _).1 (first, no_newlines-snoc ss s rest k)

-- A tidy output that ends in no blank, turned round in front of what follows it.
pub no_trailing-reverse_aux :
    (out rest : List ℕ)
    → tidy out ≡ true
    → (starts_blank out && line_ends rest) ≡ false
    → no_trailing rest ≡ true
    → no_trailing (reverse_aux out rest) ≡ true
unfolding tidy no_trailing
no_trailing-reverse_aux [] rest h k l = l
no_trailing-reverse_aux (c ∷ out) rest h k l =
    no_trailing-reverse_aux out (c ∷ rest) (ground arith) (ground arith) (ground arith)
