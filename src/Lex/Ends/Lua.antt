-- ===== src/Lex/Ends/Lua.antt =====
-- crates/rua-common/src/lex.rs: the rounds of `lex_lua_block`, and where it ends.
use rua_lang.Base.{
  ℕ, zero, suc, ◌+◌, ◌-◌, ◌≤◌, ◌<◌, ◌≡◌, refl, ◌⊎◌, inl, inr, true, false, not, ◌&&◌, ◌||◌, List,
  Option, none, some, ◌==◌, ltb, leb, if-both, length, slice, codes, get_elem?, get_elem?-lt,
  get_elem?-le, Option-cases, option-both, arith, Call, ok, Next, go, Keeps, loop-Returns, Returns,
  Returns-bind,
}
use rua_lang.Lex.Bytes.{
  IsUtf8, is_ascii_whitespace, is_at, is_at-lt, sat_at, is_name_continue, boundary_next_ascii,
  boundary_end, boundary-le,
}
use rua_lang.Lex.Kind.{bytes_eq}
use rua_lang.Lex.Lua.{
  LuaEnd, quoted_step, skip_lua_quoted, match_level, closes_at, bracket_step, skip_lua_long_bracket,
  lua_brace, lua_comment_or_brace, lua_step, lex_lua_block,
}
use rua_lang.Lex.Scan.{skip_while, not_newline}
use rua_lang.Lex.Ends.{EndsAfter}
use rua_lang.Lex.Ends.Scan.{is_at-boundary₂}
use rua_lang.Lex.Ends.Skip.{Skips, skip_while-Skips, skip_to_ascii}

-- What a skipping function promises: an end in the text, past its start, which is no brace.
abbrev Skipped : List ℕ → ℕ → Option ℕ → Type 0
Skipped bytes start none = Unit
Skipped bytes start (some end) =
    (start < end) × (end ≤ length bytes) × (is_at bytes start b'{' ≡ false)

module _ (bytes : List ℕ) (start : ℕ) where
  abbrev Inside : ℕ → Type 0
  Inside cursor = (start < cursor) × (cursor ≤ length bytes)

  abbrev left : ℕ → ℕ
  left cursor = length bytes - cursor

  quoted_step-Keeps :
      (quote cursor : ℕ)
      → Inside cursor
      → Returns (quoted_step bytes quote cursor) (Keeps Inside Inside left cursor)
  unfolding quoted_step
  quoted_step-Keeps quote cursor h =
      option-both Good (get_elem? bytes cursor) (λ e. (_, refl, ground arith))
        λ b e.
          let lt = get_elem?-lt bytes cursor e in
          if-both Good (b == b'\\') (λ _. (_, refl, ground arith))
            λ _.
              if-both Good (b == quote) (λ _. (_, refl, ground arith))
                (λ _. (_, refl, ground arith))
    where
      Good : Call (Next ℕ ℕ) → Type 0
      Good r = Returns r (Keeps Inside Inside left cursor)

  pub skip_lua_quoted-Returns : Returns (skip_lua_quoted bytes start) (Skipped bytes start)
  unfolding skip_lua_quoted
  skip_lua_quoted-Returns =
      option-both Good (get_elem? bytes start) (λ e. (none, refl, tt))
        λ b e.
          let lt = get_elem?-lt bytes start e in
          if-both Good (not (b == b'\'') && not (b == b'"')) (λ _. (none, refl, tt))
            λ t.
              Returns-bind _ _
                (loop-Returns Inside Inside left (quoted_step bytes b) (quoted_step-Keeps b)
                  (suc (length bytes)) (start + 1) (omega arith) (omega arith))
                (λ end k. (some end, refl, (k.0, k.1, ground arith)))
    where
      Good : Call (Option ℕ) → Type 0
      Good r = Returns r (Skipped bytes start)

match_level-le :
    (bytes : List ℕ) (left close : ℕ) {close' : ℕ}
    → match_level bytes left close ≡ some close'
    → close ≤ close'
unfolding match_level
match_level-le bytes zero close e = ground arith
match_level-le bytes (suc more) close {close' = c} e =
    ground (arith, match_level-le bytes more (close + 1) {close' = c})

closes_at-lt :
    (bytes : List ℕ) (level cursor : ℕ) {end : ℕ}
    → closes_at bytes level cursor ≡ some end
    → (cursor < end) × (end ≤ length bytes)
unfolding closes_at
closes_at-lt bytes level cursor {end} e =
    elim (Option-cases (match_level bytes level (cursor + 1))) [
      | inl m ↦ ground arith
      | inr (close, m) ↦
          ground (arith, match_level-le bytes level (cursor + 1) m, is_at-lt bytes close b']')
    ]

module _ (bytes : List ℕ) (start : ℕ) where
  bracket_step-Keeps :
      (level cursor : ℕ)
      → Inside bytes start cursor
      → Returns
          (bracket_step bytes level cursor)
          (Keeps (Inside bytes start) (Inside bytes start) (left bytes start) cursor)
  unfolding bracket_step
  bracket_step-Keeps level cursor h =
      if-both Good (leb (length bytes) cursor) (λ _. (_, refl, ground arith))
        λ more. elim (Option-cases (closes_at bytes level cursor)) [
          | inl e ↦ rw (e, bracket_step) (_, refl, ground arith)
          | inr (end, e) ↦ rw e (_, refl, ground (arith, closes_at-lt bytes level cursor e))
        ]
    where
      Good : Call (Next ℕ ℕ) → Type 0
      Good r = Returns r (Keeps (Inside bytes start) (Inside bytes start) (left bytes start) cursor)

  pub skip_lua_long_bracket-Returns :
      Returns (skip_lua_long_bracket bytes start) (Skipped bytes start)
  unfolding skip_lua_long_bracket
  skip_lua_long_bracket-Returns =
      if-both Good (not (is_at bytes start b'[')) (λ _. (none, refl, tt))
        λ t.
          if-both Good (not (is_at bytes equals b'[')) (λ _. (none, refl, tt))
            λ k.
              Returns-bind _ _
                (loop-Returns (Inside bytes start) (Inside bytes start) (left bytes start)
                  (bracket_step bytes _) (bracket_step-Keeps _) (suc (length bytes)) (equals + 1)
                  (omega arith) (ground (arith, is_at-lt bytes equals b'[', run.from)))
                (λ end h. (some end, refl, (h.0, h.1, ground arith)))
    where
      Good : Call (Option ℕ) → Type 0
      Good r = Returns r (Skipped bytes start)

      equals : ℕ
      equals = skip_while (λ b. b == b'=') bytes (start + 1)

      run : Skips (λ b. b == b'=') bytes (λ i. Unit) (start + 1) equals
      run = skip_while-Skips (λ b. b == b'=') bytes (λ i. Unit) (λ i b e t h. tt) (start + 1) tt

module _ {text : List ℕ} (u : IsUtf8 text) (start : ℕ) where
  -- Behind `lua!`: a brace is open, or the first one is next.
  abbrev InBlock : ℕ × ℕ → Type 0
  InBlock (cursor, depth) =
      (start < cursor) × (cursor ≤ length text) × ((0 < depth) ⊎ (is_at text cursor b'{' ≡ true))

  abbrev Rounds : ℕ → Call (Next (ℕ × ℕ) LuaEnd) → Type 0
  Rounds cursor r = Returns r (
      Keeps InBlock (λ (end, error). EndsAfter text start end)
        (λ (cursor', depth). length text - cursor') (cursor, 0))

  lua_brace-Rounds :
      (b cursor depth : ℕ)
      → InBlock (cursor, depth)
      → get_elem? text cursor ≡ some b
      → Rounds cursor (lua_brace b cursor depth)
  unfolding lua_brace
  lua_brace-Rounds b cursor depth h e =
      let lt = get_elem?-lt text cursor e in
      if-both (Rounds cursor) (b == b'{') (λ t. (_, refl, ground arith))
        λ f.
          if-both (Rounds cursor) (b == b'}')
            (λ t.
              if-both (Rounds cursor) (depth == 0) (λ none_open. ground arith)
                λ some_open.
                  if-both (Rounds cursor) (depth == 1)
                    (λ last. (_, refl, ground (arith, boundary_next_ascii cursor u e)))
                    (λ others. (_, refl, ground arith)))
            (λ k. (_, refl, ground arith))

  -- A skipped string, comment or long bracket leaves the depth alone.
  Skipped-Rounds :
      (cursor depth at_least : ℕ) (skipped : Option ℕ) {rest : Call (Next (ℕ × ℕ) LuaEnd)}
      → InBlock (cursor, depth)
      → cursor ≤ at_least
      → (is_at text cursor b'{' ≡ false) ⊎ (at_least ≡ cursor)
      → Skipped text at_least skipped
      → (skipped ≡ none → Rounds cursor rest)
      → Rounds cursor (elim skipped [ some end ↦ ok (go (end, depth)) | none ↦ rest ])
  Skipped-Rounds cursor depth at_least none h le first s k = k refl
  Skipped-Rounds cursor depth at_least (some end) h le first s k = (_, refl, ground arith)

  lua_comment_or_brace-Rounds :
      (cursor depth : ℕ)
      → InBlock (cursor, depth)
      → cursor < length text
      → Rounds cursor (lua_comment_or_brace text cursor depth)
  unfolding lua_comment_or_brace
  lua_comment_or_brace-Rounds cursor depth h lt =
      if-both (Rounds cursor) (is_at text cursor b'-' && is_at text (cursor + 1) b'-')
        (λ t.
          let in_text = is_at-boundary₂ u cursor b'-' b'-' t (omega arith) in
          let line = skip_to_ascii not_newline u (cursor + 2) (λ b k. ground arith) (omega arith) in
          Returns-bind _ _ (skip_lua_long_bracket-Returns text (cursor + 2)) λ skipped s.
            Skipped-Rounds cursor depth (cursor + 2) skipped h (omega arith) (inl (ground arith)) s
              (λ e. (_, refl, ground (arith, boundary-le text _ line.1))))
        (λ f. Returns-bind _ _ (skip_lua_long_bracket-Returns text cursor) λ skipped s.
          Skipped-Rounds cursor depth cursor skipped h (omega arith) (inr refl) s λ e.
            option-both (Rounds cursor) (get_elem? text cursor)
              (λ over. absurd (omega (arith, get_elem?-le text cursor over)))
              (λ b g. lua_brace-Rounds b cursor depth h g))

  lua_step-Rounds : (a : ℕ × ℕ) → InBlock a → Rounds a.0 (lua_step text a)
  unfolding lua_step
  lua_step-Rounds (cursor, depth) h =
      if-both (Rounds cursor) (leb (length text) cursor)
        (λ over. (
          _,
          refl,
          record { past = ground arith; boundary = boundary_end text (length text) refl },
        ))
        (λ more. Returns-bind _ _ (skip_lua_quoted-Returns text cursor) λ skipped s.
          Skipped-Rounds cursor depth cursor skipped h (omega arith) (inr refl) s
            λ e. lua_comment_or_brace-Rounds cursor depth h (ground arith))

-- What a Lua block promises: an end behind its start, at a boundary.
abbrev pub BlockEnds : List ℕ → ℕ → Option LuaEnd → Type 0
BlockEnds text start none = Unit
BlockEnds text start (some (end, error)) = EndsAfter text start end

-- `lex_lua_block` returns, with no underflow of its depth.
pub lex_lua_block-Returns :
    {text : List ℕ} (u : IsUtf8 text) (start : ℕ)
    → Returns (lex_lua_block text start) (BlockEnds text start)
unfolding lex_lua_block
lex_lua_block-Returns {text} u start =
    if-both Good
      (ltb (length text) (start + 4)
        || not (bytes_eq (slice text start (start + 4)) (codes "lua!")))
      (λ off. (none, refl, tt))
      λ on.
        if-both Good (ltb 0 start && sat_at text (start - 1) is_name_continue)
          (λ inside. (none, refl, tt))
          λ fresh.
            if-both Good (not (is_at text brace b'{')) (λ none_open. (none, refl, tt))
              λ k.
                Returns-bind _ _
                  (loop-Returns (InBlock u start) (λ (end, error). EndsAfter text start end)
                    (λ (cursor, depth). length text - cursor) (lua_step text)
                    (lua_step-Rounds u start) (suc (length text)) (brace, 0) (omega arith)
                    (ground (arith, blank.from, is_at-lt text brace b'{')))
                  (λ end h. (some end, refl, h))
  where
    Good : Call (Option LuaEnd) → Type 0
    Good r = Returns r (BlockEnds text start)

    brace : ℕ
    brace = skip_while is_ascii_whitespace text (start + 4)

    blank : Skips is_ascii_whitespace text (λ i. Unit) (start + 4) brace
    blank = skip_while-Skips is_ascii_whitespace text (λ i. Unit) (λ i b e t h. tt) (start + 4) tt
