-- ===== src/LineIndex/Chars.antt =====
-- crates/rua-ide/src/syntax/line_index.rs: the characters of a slice, and the walk over them.
use rua_lang.Base.{
  ℕ, zero, suc, ◌+◌, ◌-◌, ◌≤◌, ◌≡◌, refl, sym, ◌∙◌, ap, inl, inr, true, false, List, [], ◌∷◌, ◌++◌,
  ltb, Bool-cases, length, take, drop, slice, arith,
}
use rua_lang.Lex.Bytes.{
  is_continuation, is_char_boundary, len_utf8, Utf8After, nil, lead, cont, IsUtf8, boundary-suc,
}
use rua_lang.LineIndex.{chars, len_utf16, sum_utf16, walk}

-- what the walk adds to `byte`
unfoldable pub sum_utf8 : List ℕ → ℕ
sum_utf8 [] = 0
sum_utf8 (c ∷ cs) = len_utf8 c + sum_utf8 cs

chars-append : (xs ys : List ℕ) → chars (xs ++ ys) ≡ chars xs ++ chars ys
unfolding chars
chars-append [] ys = refl
chars-append (x ∷ xs) ys = elim (Bool-cases (is_continuation x)) [
  | inl t ↦ rw (t) (chars-append xs ys)
  | inr f ↦ rw (f) (ap (λ r. x ∷ r) (chars-append xs ys))
]

-- With no columns left the walk stops before the next character.
walk-zero : (cs : List ℕ) (byte : ℕ) → walk cs 0 byte ≡ byte
unfolding walk
walk-zero [] byte = refl
walk-zero (c ∷ cs) byte = ground arith

-- As many columns as some characters have lead behind them.
pub walk-append :
    (cs ds : List ℕ) (byte : ℕ) → walk (cs ++ ds) (sum_utf16 cs) byte ≡ byte + sum_utf8 cs
unfolding sum_utf8 sum_utf16 walk
walk-append [] ds byte = walk-zero ds byte ∙ omega arith
walk-append (c ∷ cs) ds byte =
    let over : ltb (len_utf16 c + sum_utf16 cs) (len_utf16 c) ≡ false = ground arith in
    let left : len_utf16 c + sum_utf16 cs - len_utf16 c ≡ sum_utf16 cs = omega arith in
    rw (over, left) (walk-append cs ds (byte + len_utf8 c) ∙ omega arith)

-- The first `i` bytes hold whole characters, but for the `n` bytes due at the front.
sum_utf8-take :
    {n : ℕ} {bs : List ℕ} (i : ℕ)
    → Utf8After n bs
    → is_char_boundary bs i ≡ true
    → sum_utf8 (chars (take i bs)) + n ≡ i
unfolding sum_utf8 chars
sum_utf8-take zero (nil e) c = omega arith
sum_utf8-take (suc i) (nil e) c = absurd (unfold is_char_boundary in ground arith)
sum_utf8-take zero (lead a e h u) c = omega arith
sum_utf8-take (suc i) (lead a {r = r} e h u) c =
    ground (arith, sum_utf8-take i u (sym (boundary-suc a r i) ∙ c))
sum_utf8-take zero (cont a e h u) c = absurd (unfold is_char_boundary in ground arith)
sum_utf8-take (suc i) (cont a {r = r} e h u) c =
    ground (arith, sum_utf8-take i u (sym (boundary-suc a r i) ∙ c))

drop-Utf8 :
    {n : ℕ} {bs : List ℕ} (i : ℕ)
    → Utf8After n bs
    → is_char_boundary bs i ≡ true
    → IsUtf8 (drop i bs)
drop-Utf8 zero (nil e) c = nil refl
drop-Utf8 (suc i) (nil e) c = nil refl
drop-Utf8 zero (lead a e h u) c = lead a refl h u
drop-Utf8 (suc i) (lead a {r = r} e h u) c = drop-Utf8 i u (sym (boundary-suc a r i) ∙ c)
drop-Utf8 zero (cont a e h u) c = absurd (unfold is_char_boundary in ground arith)
drop-Utf8 (suc i) (cont a {r = r} e h u) c = drop-Utf8 i u (sym (boundary-suc a r i) ∙ c)

boundary-drop :
    (bs : List ℕ) (s i e : ℕ)
    → e ≡ s + i
    → s ≤ length bs
    → is_char_boundary (drop s bs) i ≡ is_char_boundary bs e
boundary-drop bs zero i e h l = ap (is_char_boundary bs) (omega arith)
boundary-drop [] (suc s) i e h l = absurd (omega arith)
boundary-drop (b ∷ bs) (suc s) i zero h l = absurd (omega arith)
boundary-drop (b ∷ bs) (suc s) i (suc e) h l =
    boundary-drop bs s i e (omega arith) (omega arith) ∙ sym (boundary-suc b bs e)

-- A slice between boundaries has the bytes of its characters.
pub sum_utf8-slice :
    (text : List ℕ) (lo hi : ℕ)
    → IsUtf8 text
    → is_char_boundary text lo ≡ true
    → is_char_boundary text hi ≡ true
    → lo ≤ hi
    → lo ≤ length text
    → sum_utf8 (chars (slice text lo hi)) ≡ hi - lo
sum_utf8-slice text lo hi u cl ch le l = omega (
  arith,
  sum_utf8-take (hi - lo) (drop-Utf8 lo u cl)
      (boundary-drop text lo (hi - lo) hi (omega arith) l ∙ ch),
)

take-nil : (n : ℕ) → ◌≡◌ {A = List ℕ} (take n []) []
take-nil zero = refl
take-nil (suc n) = refl

drop-nil : (n : ℕ) → ◌≡◌ {A = List ℕ} (drop n []) []
drop-nil zero = refl
drop-nil (suc n) = refl

pub take-split : (xs : List ℕ) (a b c : ℕ) → c ≡ a + b → take c xs ≡ take a xs ++ take b (drop a xs)
take-split xs zero b c e = ap (λ n. take n xs) (omega arith)
take-split [] (suc a) b c e = take-nil c ∙ sym (take-nil b)
take-split (x ∷ xs) (suc a) b zero e = absurd (omega arith)
take-split (x ∷ xs) (suc a) b (suc c) e = ap (λ r. x ∷ r) (take-split xs a b c (omega arith))

drop-drop : (xs : List ℕ) (a b c : ℕ) → c ≡ a + b → drop b (drop a xs) ≡ drop c xs
drop-drop xs zero b c e = ap (λ n. drop n xs) (omega arith)
drop-drop [] (suc a) zero c e = sym (drop-nil c)
drop-drop [] (suc a) (suc b) c e = sym (drop-nil c)
drop-drop (x ∷ xs) (suc a) b zero e = absurd (omega arith)
drop-drop (x ∷ xs) (suc a) b (suc c) e = drop-drop xs a b c (omega arith)

pub chars-slice :
    (text : List ℕ) (lo mid hi : ℕ)
    → lo ≤ mid
    → mid ≤ hi
    → chars (slice text lo hi) ≡ chars (slice text lo mid) ++ chars (slice text mid hi)
chars-slice text lo mid hi h k =
    ap chars (
      take-split (drop lo text) (mid - lo) (hi - mid) (hi - lo) (omega arith)
      ∙ ap (λ r. slice text lo mid ++ take (hi - mid) r)
          (drop-drop text lo (mid - lo) mid (omega arith)))
    ∙ chars-append (slice text lo mid) (slice text mid hi)
