-- ===== src/Stacktrace/Location.antt =====
-- crates/ruac/src/stacktrace.rs: `parse_location` on a location as Lua prints it.
use rua_lang.Base.{
  ℕ, ◌≤◌, ◌≡◌, refl, ◌∙◌, ap, inl, inr, Bool, true, false, not, ◌&&◌, and_true, List, [], ◌∷◌, ◌++◌,
  append_assoc, append-nil, some, ◌==◌, Bool-cases, arith,
}
use rua_lang.Stacktrace.Parse.{
  Location, try_next, found, starts_with_colon, is_empty, at_number, at_colon, locate,
  parse_location,
}
use rua_lang.Text.{trim, is_digit, span_digits, usize_max, display}
use rua_lang.Text.Decimal.{display-IsDigits, display-cons, parse_usize-display, span_digits-append}

-- No colon of a path stands in front of a digit, as in `C:\main.lua`.
unfoldable pub is_path : List ℕ → Bool
is_path [] = true
is_path (c ∷ []) = true
is_path (c ∷ d ∷ cs) = not (c == b':' && is_digit d) && is_path (d ∷ cs)

-- what may follow a line number
abbrev pub ends_number : List ℕ → Bool
ends_number [] = true
ends_number (c ∷ cs) = c == b':'

abbrev printed : List ℕ → ℕ → List ℕ → List ℕ
printed path line suffix = path ++ b':' ∷ (display line ++ suffix)

pub span_digits-none :
    (c : ℕ) (cs : List ℕ) → is_digit c ≡ false → span_digits (c ∷ cs) ≡ ([], c ∷ cs)
unfolding span_digits
span_digits-none c cs f = rw f refl

span_digits-end : (suffix : List ℕ) → ends_number suffix ≡ true → span_digits suffix ≡ ([], suffix)
span_digits-end [] h = unfold span_digits in refl
span_digits-end (c ∷ cs) h = span_digits-none c cs (ground arith)

at_colon-no_digit :
    (before after : List ℕ) → span_digits after ≡ ([], after) → at_colon before after ≡ try_next
unfolding at_colon at_number
at_colon-no_digit before after e = ap (λ s. at_number before s.0 s.1) e

may_end :
    (suffix : List ℕ)
    → ends_number suffix ≡ true
    → not (is_empty suffix) && not (starts_with_colon suffix) ≡ false
unfolding starts_with_colon
may_end [] h = refl
may_end (c ∷ cs) h = rw h refl

at_number-line :
    (before : List ℕ) (line : ℕ) (suffix : List ℕ)
    → is_empty (trim before) ≡ false
    → line ≤ usize_max
    → ends_number suffix ≡ true
    → at_number before (display line) suffix
      ≡ found (record { source = trim before; line = line; suffix = suffix })
unfolding at_number
at_number-line before line suffix b small h =
    let (d, ds, cons) = display-cons line in
    let shown : is_empty (display line) ≡ false = ap is_empty cons in
    rw (shown, may_end suffix h, parse_usize-display line small, b) refl

at_colon-line :
    (before : List ℕ) (line : ℕ) (suffix : List ℕ)
    → is_empty (trim before) ≡ false
    → line ≤ usize_max
    → ends_number suffix ≡ true
    → at_colon before (display line ++ suffix)
      ≡ found (record { source = trim before; line = line; suffix = suffix })
unfolding at_colon
at_colon-line before line suffix b small h =
    ap (λ s. at_number before s.0 s.1)
      (span_digits-append (display line) suffix (display-IsDigits line) (span_digits-end suffix h))
    ∙ at_number-line before line suffix b small h

-- a path's colon is passed
pub locate-step :
    (before : List ℕ) (c : ℕ) (after : List ℕ)
    → ((c == b':') ≡ true → span_digits after ≡ ([], after))
    → locate before (c ∷ after) ≡ locate (before ++ c ∷ []) after
unfolding locate
locate-step before c after h = elim (Bool-cases (c == b':')) [
  | inl t ↦ rw (t, at_colon-no_digit before after (h t)) refl
  | inr f ↦ rw f refl
]

locate-found :
    (before after : List ℕ) (l : Location)
    → at_colon before after ≡ found l
    → locate before (b':' ∷ after) ≡ some l
unfolding locate
locate-found before after l e = rw e refl

locate-path :
    (before path : List ℕ) (line : ℕ) (suffix : List ℕ)
    → is_path path ≡ true
    → is_empty (trim (before ++ path)) ≡ false
    → line ≤ usize_max
    → ends_number suffix ≡ true
    → locate before (printed path line suffix)
      ≡ some (record { source = trim (before ++ path); line = line; suffix = suffix })
unfolding is_path
locate-path before [] line suffix p b small h = rw (append-nil before) (
    locate-found before (display line ++ suffix) _
      (at_colon-line before line suffix (rw (append-nil before) at b) small h))
locate-path before (c ∷ []) line suffix p b small h =
    locate-step before c (b':' ∷ (display line ++ suffix)) (λ _. span_digits-none b':' _ refl)
    ∙ locate-found (before ++ c ∷ []) (display line ++ suffix) _
        (at_colon-line (before ++ c ∷ []) line suffix b small h)
locate-path before (c ∷ d ∷ path) line suffix p b small h =
    let assoc = append_assoc before (c ∷ []) (d ∷ path) in
    let (first, rest) = (and_true (not (c == b':' && is_digit d)) (is_path (d ∷ path))).0 p in
    locate-step before c (d ∷ printed path line suffix)
      (λ t. span_digits-none d (printed path line suffix) (ground arith))
    ∙ locate-path (before ++ c ∷ []) (d ∷ path) line suffix rest
        (ap (λ s. is_empty (trim s)) assoc ∙ b) small h
    ∙ ap (λ s. some (record { source = trim s; line = line; suffix = suffix })) assoc

-- For every path that no blank borders, that is not empty and in which no colon stands in front of a
-- digit, every line number that a `usize` holds and every suffix that is empty or begins with a colon,
-- `parse_location` reads back what Lua printed.
pub parse_location-printed :
    (path : List ℕ) (line : ℕ) (suffix : List ℕ)
    → is_path path ≡ true
    → trim path ≡ path
    → is_empty path ≡ false
    → line ≤ usize_max
    → ends_number suffix ≡ true
    → parse_location (path ++ b':' ∷ (display line ++ suffix))
      ≡ some (record { source = path; line = line; suffix = suffix })
unfolding parse_location
parse_location-printed path line suffix p t b small h =
    locate-path [] path line suffix p (ap is_empty t ∙ b) small h
    ∙ ap (λ s. some (record { source = s; line = line; suffix = suffix })) t
