-- ===== src/Text/Trim.antt =====
-- Methods of Rust's `str`: what `trim` keeps, and prefixes and suffixes that are taken off.
use rua_lang.Base.{
  ℕ, ◌≡◌, refl, ◌∙◌, ap, Bool, true, false, not, List, [], ◌∷◌, ◌++◌, some, none, Option, ◌==◌,
  arith,
}
use mathlib.Core.List.{reverse, reverse-cons, reverse-append, reverse-reverse}
use rua_lang.Text.{is_whitespace, trim_start, trim, strip_prefix, strip_suffix}

-- The first character is no blank.
abbrev pub starts_dark : List ℕ → Bool
starts_dark [] = false
starts_dark (c ∷ cs) = not (is_whitespace c)

-- The last character is no blank.
unfoldable pub ends_dark : List ℕ → Bool
ends_dark [] = false
ends_dark (c ∷ []) = not (is_whitespace c)
ends_dark (c ∷ d ∷ cs) = ends_dark (d ∷ cs)

pub starts_dark-append : (xs ys : List ℕ) → starts_dark xs ≡ true → starts_dark (xs ++ ys) ≡ true
starts_dark-append [] ys h = cc
starts_dark-append (x ∷ xs) ys h = h

pub ends_dark-cons : (x : ℕ) (ys : List ℕ) → ends_dark ys ≡ true → ends_dark (x ∷ ys) ≡ true
unfolding ends_dark
ends_dark-cons x [] h = cc
ends_dark-cons x (y ∷ ys) h = h

pub ends_dark-append : (xs ys : List ℕ) → ends_dark ys ≡ true → ends_dark (xs ++ ys) ≡ true
ends_dark-append [] ys h = h
ends_dark-append (x ∷ xs) ys h = ends_dark-cons x (xs ++ ys) (ends_dark-append xs ys h)

trim_start-dark : (cs : List ℕ) → starts_dark cs ≡ true → trim_start cs ≡ cs
unfolding trim_start
trim_start-dark [] h = refl
trim_start-dark (c ∷ cs) h = let dark : is_whitespace c ≡ false = ground arith in rw dark refl

starts_dark-reverse : (cs : List ℕ) → ends_dark cs ≡ true → starts_dark (reverse cs) ≡ true
unfolding ends_dark
starts_dark-reverse [] h = cc
starts_dark-reverse (c ∷ []) h = h
starts_dark-reverse (c ∷ d ∷ cs) h =
    ap starts_dark (reverse-cons c (d ∷ cs))
    ∙ starts_dark-append (reverse (d ∷ cs)) (c ∷ []) (starts_dark-reverse (d ∷ cs) h)

pub trim-dark : (cs : List ℕ) → starts_dark cs ≡ true → ends_dark cs ≡ true → trim cs ≡ cs
unfolding trim
trim-dark cs h k =
    ap (λ s. reverse (trim_start (reverse s))) (trim_start-dark cs h)
    ∙ ap reverse (trim_start-dark (reverse cs) (starts_dark-reverse cs k))
    ∙ reverse-reverse cs

pub trim-blank : (c : ℕ) (cs : List ℕ) → is_whitespace c ≡ true → trim (c ∷ cs) ≡ trim cs
unfolding trim trim_start
trim-blank c cs h = rw h refl

pub strip_prefix-append : (ps cs : List ℕ) → strip_prefix ps (ps ++ cs) ≡ some cs
unfolding strip_prefix
strip_prefix-append [] cs = refl
strip_prefix-append (p ∷ ps) cs =
    let self : (p == p) ≡ true = ground arith in rw self (strip_prefix-append ps cs)

abbrev reversed : Option (List ℕ) → Option (List ℕ)
reversed none = none
reversed (some front) = some (reverse front)

strip_suffix-reversed :
    (suffix cs : List ℕ)
    → strip_suffix suffix cs ≡ reversed (strip_prefix (reverse suffix) (reverse cs))
unfolding strip_suffix
strip_suffix-reversed suffix cs = by_front (strip_prefix (reverse suffix) (reverse cs))
  where
    by_front :
        (o : Option (List ℕ))
        → ◌≡◌ {A = Option (List ℕ)}
            (elim o [ none ↦ none | some front ↦ some (reverse front) ])
            (reversed o)
    by_front none = refl
    by_front (some front) = refl

pub strip_suffix-append :
    (front suffix : List ℕ) → strip_suffix suffix (front ++ suffix) ≡ some front
strip_suffix-append front suffix =
    strip_suffix-reversed suffix (front ++ suffix)
    ∙ ap (λ s. reversed (strip_prefix (reverse suffix) s)) (reverse-append front suffix)
    ∙ ap reversed (strip_prefix-append (reverse suffix) (reverse front))
    ∙ ap (λ (s : List ℕ). some s) (reverse-reverse front)
