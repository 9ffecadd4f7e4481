-- ===== src/Lex/Lua.antt =====
-- crates/rua-common/src/lex.rs: `lex_lua_block` and the Lua strings and comments that it skips.
use rua_lang.Base.{
  ℕ, zero, suc, ◌+◌, ◌-◌, min, not, ◌&&◌, ◌||◌, List, Option, none, some, Call, ok, panic, ◌>>=◌,
  Next, go, stop, loop, ◌==◌, ltb, leb, if◌then◌else◌, length, get_elem?, slice, codes,
}
use rua_lang.Lex.Kind.{LexErrorKind, bytes_eq}
use rua_lang.Lex.Bytes.{is_ascii_whitespace, is_name_continue, sat_at, is_at}
use rua_lang.Lex.Scan.{skip_while, not_newline}

-- one round of `skip_lua_quoted`, on its `cursor`
unfoldable pub quoted_step : List ℕ → ℕ → ℕ → Call (Next ℕ ℕ)
quoted_step bytes quote cursor = elim (get_elem? bytes cursor) [
  | none ↦ ok (stop (length bytes))
  | some byte ↦
      if byte == b'\\'
      then ok (go (min (cursor + 2) (length bytes)))
      else if byte == quote
      then ok (stop (cursor + 1))
      else ok (go (cursor + 1))
]

unfoldable pub skip_lua_quoted : List ℕ → ℕ → Call (Option ℕ)
skip_lua_quoted bytes start = elim (get_elem? bytes start) [
  | none ↦ ok none
  | some quote ↦
      if not (quote == b'\'') && not (quote == b'"')
      then ok none
      else (loop (suc (length bytes)) (quoted_step bytes quote) (start + 1) >>= λ end.
          ok (some end))
]

-- the inner loop of `skip_lua_long_bracket`, with `left = level - matched`: `close` behind `left`
-- equal signs, `none` if there are fewer
unfoldable pub match_level : List ℕ → ℕ → ℕ → Option ℕ
match_level bytes zero close = some close
match_level bytes (suc left) close =
    if is_at bytes close b'=' then match_level bytes left (close + 1) else none

-- whether the long bracket closes at `cursor`, and where it ends
unfoldable pub closes_at : List ℕ → ℕ → ℕ → Option ℕ
closes_at bytes level cursor =
    if is_at bytes cursor b']'
    then elim (match_level bytes level (cursor + 1)) [
      | none ↦ none
      | some close ↦ if is_at bytes close b']' then some (close + 1) else none
    ]
    else none

-- one round of the outer loop of `skip_lua_long_bracket`
unfoldable pub bracket_step : List ℕ → ℕ → ℕ → Call (Next ℕ ℕ)
bracket_step bytes level cursor =
    if leb (length bytes) cursor
    then ok (stop (length bytes))
    else elim (closes_at bytes level cursor) [
      | some end ↦ ok (stop end)
      | none ↦ ok (go (cursor + 1))
    ]

unfoldable pub skip_lua_long_bracket : List ℕ → ℕ → Call (Option ℕ)
skip_lua_long_bracket bytes start =
    if not (is_at bytes start b'[')
    then ok none
    else let cursor = skip_while (λ b. b == b'=') bytes (start + 1) in
      if not (is_at bytes cursor b'[')
      then ok none
      else (loop (suc (length bytes)) (bracket_step bytes (cursor - start - 1)) (cursor + 1)
          >>= λ end. ok (some end))

-- what the loop of `lex_lua_block` returns
abbrev pub LuaEnd : Type 0
LuaEnd = ℕ × Option LexErrorKind

-- the end of a round of `lex_lua_block`: `depth -= 1` on zero would panic
unfoldable pub lua_brace : ℕ → ℕ → ℕ → Call (Next (ℕ × ℕ) LuaEnd)
lua_brace byte cursor depth =
    if byte == b'{'
    then ok (go (cursor + 1, depth + 1))
    else if byte == b'}'
    then (if depth == 0
        then panic
        else if depth == 1
        then ok (stop (cursor + 1, none))
        else ok (go (cursor + 1, depth - 1)))
    else ok (go (cursor + 1, depth))

-- one round of `lex_lua_block`, behind the tests for a string, on its `cursor` and `depth`
unfoldable pub lua_comment_or_brace : List ℕ → ℕ → ℕ → Call (Next (ℕ × ℕ) LuaEnd)
lua_comment_or_brace bytes cursor depth =
    if is_at bytes cursor b'-' && is_at bytes (cursor + 1) b'-'
    then (skip_lua_long_bracket bytes (cursor + 2) >>= λ skipped. elim skipped [
      | some end ↦ ok (go (end, depth))
      | none ↦ ok (go (skip_while not_newline bytes (cursor + 2), depth))
    ])
    else (skip_lua_long_bracket bytes cursor >>= λ skipped. elim skipped [
      | some end ↦ ok (go (end, depth))
      | none ↦ elim (get_elem? bytes cursor) [
        | none ↦ panic
        | some byte ↦ lua_brace byte cursor depth
      ]
    ])

unfoldable pub lua_step : List ℕ → ℕ × ℕ → Call (Next (ℕ × ℕ) LuaEnd)
lua_step bytes (cursor, depth) =
    if leb (length bytes) cursor
    then ok (stop (length bytes, some LexErrorKind.unterminated_lua_block))
    else (skip_lua_quoted bytes cursor >>= λ skipped. elim skipped [
      | some end ↦ ok (go (end, depth))
      | none ↦ lua_comment_or_brace bytes cursor depth
    ])

-- `none` where no `lua! {` begins at `start`
unfoldable pub lex_lua_block : List ℕ → ℕ → Call (Option LuaEnd)
lex_lua_block bytes start =
    if ltb (length bytes) (start + 4)
      || not (bytes_eq (slice bytes start (start + 4)) (codes "lua!"))
    then ok none
    else if ltb 0 start && sat_at bytes (start - 1) is_name_continue
    then ok none
    else let cursor = skip_while is_ascii_whitespace bytes (start + 4) in
      if not (is_at bytes cursor b'{')
      then ok none
      else (loop (suc (length bytes)) (lua_step bytes) (cursor, 0) >>= λ end. ok (some end))
