-- ===== src/Text.antt =====
-- Methods of Rust's `str` on the list of a text's characters, as the compiler and the editor use them.
pub mod Decimal
pub mod Trim
pub mod Lines
use rua_lang.Base.{
  ℕ, zero, suc, ◌+◌, ◌-◌, ◌*◌, ◌/◌, ◌%◌, ◌^◌, Bool, true, false, not, ◌&&◌, ◌||◌, List, [], ◌∷◌,
  ◌++◌, Option, none, some, ◌==◌, ltb, leb, within, if◌then◌else◌,
}
use mathlib.Core.List.{reverse}

-- `char::is_whitespace`: the characters of Unicode's White_Space
unfoldable pub is_whitespace : ℕ → Bool
is_whitespace c =
    within 9 13 c
    || c == 32
    || c == 0x85
    || c == 0xa0
    || c == 0x1680
    || within 0x2000 0x200a c
    || c == 0x2028
    || c == 0x2029
    || c == 0x202f
    || c == 0x205f
    || c == 0x3000

unfoldable pub trim_start : List ℕ → List ℕ
trim_start [] = []
trim_start (c ∷ cs) = if is_whitespace c then trim_start cs else c ∷ cs

unfoldable pub trim : List ℕ → List ℕ
trim cs = reverse (trim_start (reverse (trim_start cs)))

unfoldable pub strip_prefix : List ℕ → List ℕ → Option (List ℕ)
strip_prefix [] cs = some cs
strip_prefix (p ∷ ps) [] = none
strip_prefix (p ∷ ps) (c ∷ cs) = if p == c then strip_prefix ps cs else none

unfoldable pub strip_suffix : List ℕ → List ℕ → Option (List ℕ)
strip_suffix suffix cs = elim (strip_prefix (reverse suffix) (reverse cs)) [
  | none ↦ none
  | some front ↦ some (reverse front)
]

-- `str::lines`: a line ends at `\n` or `\r\n`, and the text may end without either
unfoldable pub push_front : ℕ → List (List ℕ) → List (List ℕ)
push_front c [] = (c ∷ []) ∷ []
push_front c (line ∷ rest) = (c ∷ line) ∷ rest

unfoldable pub lines : List ℕ → List (List ℕ)
lines [] = []
lines (c ∷ []) = if c == b'\n' then [] ∷ [] else (c ∷ []) ∷ []
lines (c ∷ d ∷ cs) =
    let behind_both = lines cs in
    let behind = lines (d ∷ cs) in
    if c == b'\n'
    then [] ∷ behind
    else if c == b'\r' && d == b'\n'
    then [] ∷ behind_both
    else push_front c behind

abbrev pub is_digit : ℕ → Bool
is_digit c = within b'0' b'9' c

-- the digits that a text begins with, and what is behind them
unfoldable pub span_digits : List ℕ → List ℕ × List ℕ
span_digits [] = ([], [])
span_digits (c ∷ cs) =
    let (digits, rest) = span_digits cs in if is_digit c then (c ∷ digits, rest) else ([], c ∷ cs)

unfoldable pub decimal : ℕ → List ℕ → ℕ
decimal acc [] = acc
decimal acc (d ∷ ds) = decimal (acc * 10 + (d - b'0')) ds

abbrev pub usize_max : ℕ
usize_max = 2 ^ 64 - 1

-- `str::parse::<usize>` on digits
unfoldable pub parse_usize : List ℕ → Option ℕ
parse_usize [] = none
parse_usize (d ∷ ds) = let n = decimal 0 (d ∷ ds) in if leb n usize_max then some n else none

-- `format!("{n}")`: with more fuel than the number there are always digits enough
unfoldable pub display_with : ℕ → ℕ → List ℕ
display_with zero n = []
display_with (suc fuel) n =
    let front = display_with fuel (n / 10) in
    if ltb n 10 then (b'0' + n) ∷ [] else front ++ (b'0' + n % 10) ∷ []

unfoldable pub display : ℕ → List ℕ
display n = display_with (suc n) n
