-- ===== src/Lex/Range.antt =====
-- crates/rua-common/src/core.rs: `TextRange`, a half-open range of `u32` byte offsets. `assert!` and
-- an addition past `u32::MAX` panic, as in a build with overflow checks.
use rua_lang.Base.{
  ℕ, ◌+◌, ◌-◌, ◌≤◌, ◌≡◌, ◌%◌, ◌^◌, Bool, ◌&&◌, Call, ok, panic, ◌==◌, ltb, leb, if◌then◌else◌,
  arith,
}

abbrev pub u32_max : ℕ
u32_max = 4294967295

-- `n as u32`
abbrev pub as_u32 : ℕ → ℕ
as_u32 n = n % 2 ^ 32

pub record TextRange : Type 0 where
  pub start : ℕ
  pub end : ℕ

unfoldable pub new : ℕ → ℕ → Call TextRange
new start end = if leb start end then ok (record { start = start; end = end }) else panic

unfoldable pub at : ℕ → ℕ → Call TextRange
unfolding new
at start len = if leb (start + len) u32_max then new start (start + len) else panic

-- `TextRange::len`; `start ≤ end` holds of every range that `new` makes
abbrev pub len : TextRange → ℕ
len r = r.end - r.start

unfoldable pub is_empty : TextRange → Bool
is_empty r = r.start == r.end

unfoldable pub contains : TextRange → ℕ → Bool
contains r offset = leb r.start offset && ltb offset r.end

unfoldable pub contains_range : TextRange → TextRange → Bool
contains_range r other = leb r.start other.start && leb other.end r.end

pub at_lem :
    (start len : ℕ)
    → start + len ≤ u32_max
    → at start len ≡ ok (record { start = start; end = start + len })
unfolding at
at_lem start len h = ground arith
