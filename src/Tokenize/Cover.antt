-- ===== src/Tokenize/Cover.antt =====
-- crates/ruac/src/tokenize.rs: the strict tokens of a text, and the text that they cover.
use mathlib.Core.Path.{subst}
use rua_lang.Base.{
  ℕ, suc, ◌+◌, ◌<◌, ◌≤◌, ◌≡◌, refl, sym, ◌∙◌, ap, false, List, [], ◌∷◌, none, ok, Result, error,
  done, length, All, loop-stop, length-drop, arith,
}
use rua_lang.Lex.Bytes.{IsUtf8, boundary_zero}
use rua_lang.Lex.Kind.{TokenKind, is_trivia}
use rua_lang.Lex.Lossless.{Tiles, lex-Lexed}
use rua_lang.Lex.NotEof.{is_eof}
use rua_lang.Lex.Range.{u32_max}
use rua_lang.Lex.Stream.{LexToken, lex}
use rua_lang.Source
use rua_lang.Source.{TokenData}
use rua_lang.Tokenize.{
  RuaTokenize, TokenizeError, StrictTokenStream, unlimited, from_stream, next_token, next_start,
  skip_trivia, skip_step, eof_token, range_of,
}
use rua_lang.Tokenize.Reads.{
  at, Ready, Gives, strict-skipped, strict-kept, strict-refused, skip_trivia-strict, skips, keeps,
  pardons, rejects, rejects_trivia, fate-cases, next_start-token, next_start-end, go_on,
  skip_step-end, after_trivia-end,
}
use rua_lang.Tokenize.Strict.{Stream, strict, breaks_of, kept, fate, data_of}

-- Calls of `next_token` give these tokens one after the other, and then `last`. Behind the end of
-- the text there is another `eof` token at each call.
abbrev pub Reads : RuaTokenize → List TokenData → Result TokenizeError TokenData → Type 0
Reads s [] (error e) = (s' : RuaTokenize) × (next_token s ≡ ok (s', error e))
Reads s [] (done eof) =
    (s' : RuaTokenize) × (next_token s ≡ ok (s', done eof))
    × ((again : TokenData) × (next_token s' ≡ ok (s', done again)) × (again.kind ≡ TokenKind.eof))
Reads s (token ∷ front) last =
    (s' : RuaTokenize) × (next_token s ≡ ok (s', done token)) × Reads s' front last

-- From `start` on, trivia and tokens take turns without a gap or an overlap, up to the end of the
-- text or to an error, and no token is trivia.
abbrev pub Covers : List ℕ → ℕ → List TokenData → Result TokenizeError TokenData → Type 0
Covers text start [] (error e) = start ≤ e.range.start
Covers text start [] (done eof) =
    (eof.leading_trivia.start ≡ start)
    × (Source.end eof.leading_trivia ≡ eof.range.start)
    × (eof.range.start ≡ length text)
    × (eof.kind ≡ TokenKind.eof)
Covers text start (token ∷ front) last =
    (token.leading_trivia.start ≡ start)
    × (Source.end token.leading_trivia ≡ token.range.start)
    × (token.range.start < Source.end token.range)
    × (is_trivia token.kind ≡ false)
    × Covers text (Source.end token.range) front last

module _ (text : List ℕ) (tokens : List LexToken) where
  next_start-Ready :
      (cursor start line : ℕ) (ts : List LexToken)
      → Ready text tokens cursor start ts
      → next_start (at text tokens cursor line) ≡ start
  next_start-Ready cursor start line [] ready =
      next_start-end text tokens cursor start ready line ∙ sym ready.tiles
  next_start-Ready cursor start line (t ∷ ts) ready =
      next_start-token text tokens cursor start t ts ready line ∙ ready.tiles.0

  next_token-Gives :
      (cursor start line : ℕ) (ts : List LexToken)
      → Ready text tokens cursor start ts
      → (let stream = strict text start line line ts in
          Gives text tokens stream.front stream.last (next_token (at text tokens cursor line)))
  unfolding next_token skip_trivia
  next_token-Gives cursor start line ts ready = rw (next_start-Ready cursor start line ts ready) (
      skip_trivia-strict text tokens (suc (length tokens)) cursor start start line line ts ready
        (omega (arith, ap length ready.rest, length-drop tokens cursor)))

  next_token-end :
      (cursor start line : ℕ)
      → Ready text tokens cursor start []
      → (again : TokenData) × (next_token (at text tokens cursor line)
          ≡ ok (at text tokens cursor line, done again))
        × (again.kind ≡ TokenKind.eof)
  unfolding next_token skip_trivia
  next_token-end cursor start line ready =
      let s = at text tokens cursor line in
      (
        _,
        ap (go_on text tokens (next_start s) line) (
              loop-stop (length tokens) skip_step s (s, none)
                (skip_step-end text tokens cursor start ready line))
            ∙ after_trivia-end text tokens cursor start ready (next_start s) line line,
        unfold eof_token in refl,
      )

  Reads-strict :
      (cursor start line : ℕ) (ts : List LexToken) (front : List TokenData)
      (last : Result TokenizeError TokenData)
      → Ready text tokens cursor start ts
      → strict text start line line ts ≡ record { front = front; last = last }
      → Reads (at text tokens cursor line) front last
  Reads-strict cursor start line ts [] (error err) ready e =
      subst
        (λ (s : Stream). Gives text tokens s.front s.last (next_token (at text tokens cursor line)))
        e (next_token-Gives cursor start line ts ready)
  Reads-strict cursor start line ts [] (done eof) ready e =
      let (cursor', line', start', call, ready') =
        subst
          (λ (s : Stream).
            Gives text tokens s.front s.last (next_token (at text tokens cursor line)))
          e (next_token-Gives cursor start line ts ready) in
      (at text tokens cursor' line', call, next_token-end cursor' start' line' ready')
  Reads-strict cursor start line ts (token ∷ front) last ready e =
      let (cursor', line', start', ts', call, ready', e') =
        subst
          (λ (s : Stream).
            Gives text tokens s.front s.last (next_token (at text tokens cursor line)))
          e (next_token-Gives cursor start line ts ready) in
      (
        at text tokens cursor' line',
        call,
        Reads-strict cursor' start' line' ts' front last ready' e',
      )

module _ (text : List ℕ) where
  end-range_of :
      (t : LexToken) (line start : ℕ)
      → t.range.start ≡ start
      → start < t.range.end
      → t.range.end ≡ Source.end (range_of t line)
  unfolding range_of Source.new Source.end
  end-range_of t line start e h = omega (arith, e)

  Covers-kept :
      (a b line start : ℕ) (t : LexToken) (front : List TokenData)
      (last : Result TokenizeError TokenData)
      → a ≤ start
      → t.range.start ≡ start
      → start < t.range.end
      → is_trivia t.kind ≡ false
      → Covers text t.range.end front last
      → Covers text a (data_of a b line t ∷ front) last
  Covers-kept a b line start t front last h e k n more =
      let end_eq = end-range_of t line start e k in
      (
        unfold Source.new in refl,
        unfold Source.new Source.end range_of in omega (arith, e),
        unfold Source.new range_of in omega (arith, e, end_eq),
        n,
        subst (λ p. Covers text p front last) end_eq more,
      )

  Covers-strict :
      (a b line start : ℕ) (ts : List LexToken)
      → a ≤ start
      → Tiles text start ts (length text)
      → (let stream = strict text a b line ts in Covers text a stream.front stream.last)
  Covers-strict a b line start [] h tiles =
      unfold strict Source.new Source.end in (refl, omega (arith, tiles), refl, refl)
  Covers-strict a b line start (t ∷ ts) h (e, past, tiles) =
      let line' = line + breaks_of text t in
      let P = λ (s : Stream). Covers text a s.front s.last in
      let keep = λ (n : is_trivia t.kind ≡ false) (f : fate t ≡ kept).
        subst P (sym (strict-kept text a b line t ts f)) (
          Covers-kept a b line start t _ _ h e past.past n
            (Covers-strict t.range.end line' line' t.range.end ts (omega arith) tiles)) in
      elim (fate-cases t) [
        | skips y n f ↦
            subst P (sym (strict-skipped text a b line t ts f))
              (Covers-strict a b line' t.range.end ts (omega (arith, past.past)) tiles)
        | keeps n i f ↦ keep n f
        | pardons e n i x f ↦ keep n f
        | rejects_trivia k y i f ↦
            subst P (sym (strict-refused text a b line t ts k f))
              (unfold range_of Source.new in omega (arith, e))
        | rejects k n i x f ↦
            subst P (sym (strict-refused text a b line t ts k f))
              (unfold range_of Source.new in omega (arith, e))
      ]

  kinds-strict :
      (a b line : ℕ) (ts : List LexToken)
      → All (λ t. is_eof t.kind ≡ false) ts
      → All (λ (d : TokenData). is_eof d.kind ≡ false) (strict text a b line ts).front
  kinds-strict a b line [] h = unfold strict in tt
  kinds-strict a b line (t ∷ ts) (k, more) =
      let line' = line + breaks_of text t in
      let P = λ (s : Stream). All (λ (d : TokenData). is_eof d.kind ≡ false) s.front in
      let keep = λ (f : fate t ≡ kept).
        subst P (sym (strict-kept text a b line t ts f))
          (k, kinds-strict t.range.end line' line' ts more) in
      elim (fate-cases t) [
        | skips y n f ↦
            subst P (sym (strict-skipped text a b line t ts f)) (kinds-strict a b line' ts more)
        | keeps n i f ↦ keep f
        | pardons e n i x f ↦ keep f
        | rejects_trivia e y i f ↦ subst P (sym (strict-refused text a b line t ts e f)) tt
        | rejects e n i x f ↦ subst P (sym (strict-refused text a b line t ts e f)) tt
      ]

-- The compiler's tokens of a text.
pub record Tokenized (text : List ℕ) : Type 0 where
  pub stream : StrictTokenStream
  pub front : List TokenData
  pub last : Result TokenizeError TokenData
  pub returns : unlimited text ≡ ok stream
  pub lossless : lex text ≡ ok stream.tokens
  pub strictly : strict text 0 1 1 stream.tokens ≡ record { front = front; last = last }
  pub reads : Reads (from_stream stream) front last
  pub covers : Covers text 0 front last
  pub kinds : All (λ (d : TokenData). is_eof d.kind ≡ false) front

-- For every UTF-8 text of at most `u32::MAX` bytes, `unlimited` returns the tokens of `lex`, and the
-- calls of `next_token` from its start on do not panic. They give the tokens that are no trivia one
-- by one, none of the kind `eof`, each with the trivia before it, so that trivia and tokens cover the
-- text without a gap or an overlap; at the end comes the `eof` token at the end of the text, or the
-- first error of a token but an unknown character.
pub next_token-Tokenized : (text : List ℕ) → IsUtf8 text → length text ≤ u32_max → Tokenized text
next_token-Tokenized text u small =
    let lexed = lex-Lexed text u small in
    let stream : StrictTokenStream = record { text = text; tokens = lexed.found } in
    let s = strict text 0 1 1 lexed.found in
    record {
      stream = stream;
      front = s.front;
      last = s.last;
      returns = unfold unlimited in rw lexed.returns refl;
      lossless = lexed.returns;
      strictly = refl;
      reads =
          unfold from_stream in
          Reads-strict text lexed.found 0 0 1 lexed.found s.front s.last
            (record { rest = refl; tiles = lexed.tiles; boundary = boundary_zero u }) refl;
      covers = Covers-strict text 0 1 1 0 lexed.found (omega arith) lexed.tiles;
      kinds = kinds-strict text 0 1 1 lexed.found lexed.kinds;
    }
