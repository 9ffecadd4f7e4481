-- ===== src/Lex/Lossless.antt =====
-- crates/rua-common/src/lex.rs: the tokens of `lex` and of `lex_with_limit`.
use rua_lang.Base.{
  ℕ, zero, suc, ◌+◌, ◌-◌, ◌≤◌, ◌<◌, ◌≡◌, refl, ◌∙◌, ap, inl, inr, true, false, List, [], ◌∷◌, ◌++◌,
  append-nil, append_assoc, some, leb, leb→le, leb→lt, Bool-cases, length, length-append, get_elem?,
  arith, All, ok, go, stop, loop,
}
use rua_lang.Lex.Bytes.{IsUtf8, is_char_boundary, boundary_zero, boundary-le}
use rua_lang.Lex.Ends.{EndsAfter}
use rua_lang.Lex.Ends.Token.{lex_one-Returns}
use rua_lang.Lex.NotEof.{is_eof, lex_one-ne-eof}
use rua_lang.Lex.Range
use rua_lang.Lex.Range.{TextRange, u32_max, as_u32, at_lem}
use rua_lang.Lex.Scan.{Lexeme}
use rua_lang.Lex.Stream.{
  LexToken, tokens, limit, new_token, push_token, lex_step, lex_with_limit, usize_max, lex,
}
use rua_lang.Lex.Token.{lex_one}

-- The tokens lie end to end from `start` to `end`; each is nonempty, and ends at a character
-- boundary.
abbrev pub Tiles : List ℕ → ℕ → List LexToken → ℕ → Type 0
Tiles text start [] end = start ≡ end
Tiles text start (t ∷ ts) end =
    (t.range.start ≡ start) × EndsAfter text start t.range.end × Tiles text t.range.end ts end

abbrev token_of : ℕ → Lexeme → LexToken
token_of start l = record {
  kind = l.kind;
  range = record { start = start; end = l.end };
  error = l.error;
}

-- The tokens that the rounds from a cursor on find.
data Lexes (text : List ℕ) : ℕ → List LexToken → Type 0 where
  done : {cursor : ℕ} → cursor ≡ length text → Lexes text cursor []
  next :
      {cursor : ℕ} {ts : List LexToken} (l : Lexeme)
      → lex_one text cursor ≡ ok l
      → EndsAfter text cursor l.end
      → Lexes text l.end ts
      → Lexes text cursor (token_of cursor l ∷ ts)

Lexes-Tiles :
    {text : List ℕ} {cursor : ℕ} {ts : List LexToken}
    → Lexes text cursor ts
    → Tiles text cursor ts (length text)
Lexes-Tiles (done e) = e
Lexes-Tiles (next l e h more) = (refl, h, Lexes-Tiles more)

Lexes-All :
    {text : List ℕ} {cursor : ℕ} {ts : List LexToken}
    → Lexes text cursor ts
    → All (λ t. is_eof t.kind ≡ false) ts
Lexes-All (done e) = tt
Lexes-All {text} (next {cursor = c} l e h more) = (lex_one-ne-eof text c l e, Lexes-All more)

Lexes-exist :
    {text : List ℕ} (fuel cursor : ℕ)
    → IsUtf8 text
    → is_char_boundary text cursor ≡ true
    → length text - cursor < fuel
    → (ts : List LexToken) × Lexes text cursor ts
Lexes-exist zero cursor u start m = absurd (omega arith)
Lexes-exist {text} (suc fuel) cursor u start m = elim (Bool-cases (leb (length text) cursor)) [
  | inl over ↦ ([], done (omega (arith, boundary-le text cursor start, leb→le _ _ over)))
  | inr inside ↦
      let lt = leb→lt (length text) cursor inside in
      let (l, e, h) = lex_one-Returns u cursor start lt in
      let (ts, more) = Lexes-exist fuel l.end u h.boundary (omega (arith, h.past)) in
      (token_of cursor l ∷ ts, next l e h more)
]

length-Tiles :
    (text : List ℕ) (start : ℕ) (ts : List LexToken) (end : ℕ)
    → Tiles text start ts end
    → start + length ts ≤ end
length-Tiles text start [] end h = omega arith
length-Tiles text start (t ∷ ts) end h =
    omega (arith, h.1.past, length-Tiles text t.range.end ts end h.2)

new_token_lem :
    (start : ℕ) (l : Lexeme)
    → start < l.end
    → l.end ≤ u32_max
    → new_token l.kind start (l.end - start) l.error ≡ ok (token_of start l)
unfolding new_token
new_token_lem start l lt le = ground (arith, at_lem (as_u32 start) (as_u32 (l.end - start)))

lex_step-done :
    (text : List ℕ) (max_tokens cursor : ℕ) (pushed : List LexToken)
    → cursor ≡ length text
    → lex_step text max_tokens (cursor, pushed) ≡ ok (stop (tokens pushed))
unfolding lex_step
lex_step-done text max_tokens cursor pushed e = ground arith

module _ {text : List ℕ} (small : length text ≤ u32_max) (max_tokens : ℕ) where
  range_lem :
      (start : ℕ) (l : Lexeme)
      → EndsAfter text start l.end
      → Range.at (as_u32 start) (as_u32 (l.end - start)) ≡ ok (token_of start l).range
  range_lem start l h = ground (
    arith,
    at_lem (as_u32 start) (as_u32 (l.end - start)),
    h.past,
    boundary-le text l.end h.boundary,
  )

  -- One round of the loop, on a cursor inside the text.
  lex_step-push :
      (cursor : ℕ) (pushed : List LexToken) (l : Lexeme)
      → lex_one text cursor ≡ ok l
      → EndsAfter text cursor l.end
      → length pushed < max_tokens
      → lex_step text max_tokens (cursor, pushed)
        ≡ ok (go (l.end, pushed ++ token_of cursor l ∷ []))
  unfolding lex_step push_token
  lex_step-push cursor pushed l e h below =
      let le = boundary-le text l.end h.boundary in
      ground (arith, e, new_token_lem cursor l h.past (omega arith), h.past)

  lex_step-limit :
      (cursor : ℕ) (pushed : List LexToken) (l : Lexeme)
      → lex_one text cursor ≡ ok l
      → EndsAfter text cursor l.end
      → length pushed ≡ max_tokens
      → lex_step text max_tokens (cursor, pushed)
        ≡ ok (stop (limit (record { range = (token_of cursor l).range })))
  unfolding lex_step push_token
  lex_step-limit cursor pushed l e h full =
      let le = boundary-le text l.end h.boundary in ground (arith, e, range_lem cursor l h, h.past)

  -- With room for all tokens the loop returns them.
  loop-tokens :
      {cursor : ℕ} {ts : List LexToken} (fuel : ℕ) (pushed : List LexToken)
      → Lexes text cursor ts
      → length text - cursor < fuel
      → length pushed + length ts ≤ max_tokens
      → loop fuel (lex_step text max_tokens) (cursor, pushed) ≡ ok (tokens (pushed ++ ts))
  unfolding loop
  loop-tokens zero pushed r m room = absurd (omega arith)
  loop-tokens (suc fuel) pushed (done {cursor = c} e) m room =
      rw (lex_step-done text max_tokens c pushed e, append-nil)
  loop-tokens (suc fuel) pushed (next {cursor = c} {ts = ts} l e h more) m room =
      rw (lex_step-push c pushed l e h (omega arith)) (
        loop-tokens fuel (pushed ++ token_of c l ∷ []) more
          (omega (arith, h.past, boundary-le text l.end h.boundary))
          (omega (arith, length-append pushed (token_of c l ∷ [])))
        ∙ ap (λ x. ok (tokens x)) (append_assoc pushed (token_of c l ∷ []) ts))

  -- Else it reports the range of the first token beyond the limit.
  loop-limit :
      {cursor : ℕ} {ts : List LexToken} (fuel k : ℕ) (pushed : List LexToken) {t : LexToken}
      → Lexes text cursor ts
      → length text - cursor < fuel
      → length pushed + k ≡ max_tokens
      → get_elem? ts k ≡ some t
      → loop fuel (lex_step text max_tokens) (cursor, pushed)
        ≡ ok (limit (record { range = t.range }))
  unfolding loop
  loop-limit zero k pushed r m full at = absurd (omega arith)
  loop-limit (suc fuel) k pushed (done e) m full at = cc
  loop-limit (suc fuel) zero pushed {t} (next {cursor = c} l e h more) m full at =
      rw (lex_step-limit c pushed l e h (omega arith)) (ground arith)
  loop-limit (suc fuel) (suc k) pushed (next {cursor = c} l e h more) m full at =
      rw (lex_step-push c pushed l e h (omega arith)) (
        loop-limit fuel k (pushed ++ token_of c l ∷ []) more
          (omega (arith, h.past, boundary-le text l.end h.boundary))
          (omega (arith, length-append pushed (token_of c l ∷ []))) at)

-- What lexing a text promises: `lex` returns tokens that tile the text, none of the kind `eof`, and
-- `lex_with_limit` returns the same tokens, or the range of the first token that the limit leaves out.
pub record Lexed (text : List ℕ) : Type 0 where
  pub found : List LexToken
  pub returns : lex text ≡ ok found
  pub tiles : Tiles text 0 found (length text)
  pub kinds : All (λ t. is_eof t.kind ≡ false) found
  pub within :
      (max_tokens : ℕ)
      → length found ≤ max_tokens
      → lex_with_limit text max_tokens ≡ ok (tokens found)
  pub beyond :
      (max_tokens : ℕ) (t : LexToken)
      → get_elem? found max_tokens ≡ some t
      → lex_with_limit text max_tokens ≡ ok (limit (record { range = t.range }))

-- For every text of at most `u32::MAX` bytes, `lex` returns: it neither panics nor runs out of
-- rounds. Its tokens are nonempty, lie end to end from 0 to the length of the text, and end at
-- character boundaries; none has the kind `eof`. `lex_with_limit` returns these tokens if the limit
-- is at least their number, and else an error with the range of the first token that is one too many.
pub lex-Lexed : (text : List ℕ) → IsUtf8 text → length text ≤ u32_max → Lexed text
unfolding lex_with_limit lex
lex-Lexed text u small =
    let (ts, r) = Lexes-exist (suc (length text)) 0 u (boundary_zero u) (omega arith) in
    let tiles = Lexes-Tiles r in
    let few = length-Tiles text 0 ts (length text) tiles in
    record {
      found = ts;
      returns =
          rw (loop-tokens small usize_max (suc (length text)) [] r (omega arith) (omega arith))
            refl;
      tiles = tiles;
      kinds = Lexes-All r;
      within = λ max_tokens room.
          loop-tokens small max_tokens (suc (length text)) [] r (omega arith) (omega arith);
      beyond = λ max_tokens t at.
          loop-limit small max_tokens (suc (length text)) max_tokens [] r (omega arith)
            (omega arith) at;
    }
