-- ===== src/Stacktrace/PrintedLines.antt =====
-- crates/ruac/src/stacktrace.rs: the lines of a printed traceback, and the places that stand in them.
use rua_lang.Base.{
  ℕ, ◌≤◌, ◌≡◌, refl, ◌∙◌, true, false, not, ◌&&◌, and_true, List, [], ◌∷◌, ◌++◌, none, some, ◌==◌,
  codes, arith,
}
use rua_lang.Stacktrace.Location.{
  is_path, ends_number, locate-step, span_digits-none, parse_location-printed,
}
use rua_lang.Stacktrace.Parse.{is_empty, locate, parse_location}
use rua_lang.Stacktrace.Printed.{
  PrintedFrame, lua_function, native, print_location, print_frame, IsInline, IsChunkName, IsFrame,
}
use rua_lang.Text.{is_whitespace, trim, is_digit, span_digits, usize_max, display}
use rua_lang.Text.Decimal.{IsDigits, display-IsDigits}
use rua_lang.Text.Lines.{no_break, no_break-append}
use rua_lang.Text.Trim.{
  starts_dark, ends_dark, starts_dark-append, ends_dark-cons, ends_dark-append, trim-dark,
  trim-blank,
}

-- The test of a path stays true when a colon and no digit follow.
pub is_path-append :
    (xs ys : List ℕ)
    → is_path xs ≡ true
    → is_path (b':' ∷ ys) ≡ true
    → is_path (xs ++ b':' ∷ ys) ≡ true
unfolding is_path
is_path-append [] ys h k = k
is_path-append (c ∷ []) ys h k = ground (arith, k)
is_path-append (c ∷ d ∷ cs) ys h k =
    let (first, rest) = (and_true (not (c == b':' && is_digit d)) (is_path (d ∷ cs))).0 h in
    (and_true (not (c == b':' && is_digit d)) (is_path (d ∷ cs ++ b':' ∷ ys))).1
      (first, is_path-append (d ∷ cs) ys rest k)

-- A text in which no colon stands in front of a digit holds no location.
pub locate-none : (before cs : List ℕ) → is_path cs ≡ true → locate before cs ≡ none
unfolding is_path
locate-none before [] h = unfold locate in refl
locate-none before (c ∷ []) h =
    locate-step before c [] (λ _. unfold span_digits in refl) ∙ unfold locate in refl
locate-none before (c ∷ d ∷ cs) h =
    let (first, rest) = (and_true (not (c == b':' && is_digit d)) (is_path (d ∷ cs))).0 h in
    locate-step before c (d ∷ cs) (λ t. span_digits-none d cs (ground (arith, first, t)))
    ∙ locate-none (before ++ c ∷ []) (d ∷ cs) rest

pub dark_nonempty : (cs : List ℕ) → starts_dark cs ≡ true → is_empty cs ≡ false
dark_nonempty [] h = cc
dark_nonempty (c ∷ cs) h = refl

digits-no_break : (ds : List ℕ) → IsDigits ds → no_break ds ≡ true
unfolding no_break
digits-no_break [] h = refl
digits-no_break (d ∷ ds) (h, hs) = ground (arith, digits-no_break ds hs)

module _ (path : List ℕ) (line : ℕ) (suffix : List ℕ) (name : IsChunkName path) where
  pub print_location-IsInline :
      ends_dark suffix ≡ true → no_break suffix ≡ true → IsInline (print_location path line suffix)
  print_location-IsInline e n = record {
    start = starts_dark-append path _ name.inline.start;
    end =
        ends_dark-append path _ (ends_dark-cons b':' _ (ends_dark-append (display line) suffix e));
    one_line = no_break-append path _ name.inline.one_line (
        no_break-append (b':' ∷ []) _ (unfold no_break in refl) (
          no_break-append (display line) suffix
            (digits-no_break (display line) (display-IsDigits line)) n));
  }

  pub parse_location-print :
      line ≤ usize_max
      → ends_number suffix ≡ true
      → parse_location (print_location path line suffix)
        ≡ some (record { source = path; line = line; suffix = suffix })
  parse_location-print small e =
      parse_location-printed path line suffix name.path
        (trim-dark path name.inline.start name.inline.end) (dark_nonempty path name.inline.start)
        small e

pub trim-space : (cs : List ℕ) → starts_dark cs ≡ true → ends_dark cs ≡ true → trim (b' ' ∷ cs) ≡ cs
trim-space cs h k = trim-blank b' ' cs (unfold is_whitespace in refl) ∙ trim-dark cs h k

pub function-IsInline : (function : List ℕ) → IsInline function → IsInline (codes "in " ++ function)
unfolding no_break is_whitespace
function-IsInline function inline = record {
  start = refl;
  end = ends_dark-append (codes "in ") function inline.end;
  one_line = no_break-append (codes "in ") function refl inline.one_line;
}

-- A text behind a colon and a space.
pub behind-IsInline : (cs : List ℕ) → IsInline cs → IsInline (codes ": " ++ cs)
unfolding no_break is_whitespace
behind-IsInline cs inline = record {
  start = refl;
  end = ends_dark-append (codes ": ") cs inline.end;
  one_line = no_break-append (codes ": ") cs refl inline.one_line;
}

pub native-IsInline : (chunk : List ℕ) → IsInline chunk → IsInline (chunk ++ codes ": in ?")
unfolding no_break is_whitespace ends_dark
native-IsInline chunk inline = record {
  start = starts_dark-append chunk (codes ": in ?") inline.start;
  end = ends_dark-append chunk (codes ": in ?") refl;
  one_line = no_break-append chunk (codes ": in ?") inline.one_line refl;
}

pub print_frame-IsInline : (f : PrintedFrame) → IsFrame f → IsInline (print_frame f)
print_frame-IsInline (lua_function path line function) (name, small, inline) =
    let suffix = behind-IsInline _ (function-IsInline function inline) in
    print_location-IsInline path line (codes ": in " ++ function) name suffix.end suffix.one_line
print_frame-IsInline (native chunk) name = native-IsInline chunk name.inline

pub trim-tab : (cs : List ℕ) → IsInline cs → trim (b'\t' ∷ cs) ≡ cs
trim-tab cs inline =
    trim-blank b'\t' cs (unfold is_whitespace in refl) ∙ trim-dark cs inline.start inline.end
