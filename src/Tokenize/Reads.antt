-- ===== src/Tokenize/Reads.antt =====
-- crates/ruac/src/tokenize.rs: `next_token` reads the strict tokens one by one.
use mathlib.Core.Path.{subst}
use rua_lang.Base.{
  ℕ, zero, suc, ◌+◌, ◌-◌, ◌<◌, ◌≡◌, refl, sym, ◌∙◌, ap, inl, inr, true, false, List, [], ◌∷◌,
  Option, none, some, Call, ok, ◌>>=◌, loop, Result, error, done, Bool-cases, Option-cases, length,
  get_elem?, get_elem?-none, drop, drop-eq-cons, drop-eq-nil, arith, stop, go, loop-stop, loop-go,
}
use rua_lang.Lex.Bytes.{is_char_boundary}
use rua_lang.Lex.Kind.{LexErrorKind, is_trivia}
use rua_lang.Lex.Lossless.{Tiles}
use rua_lang.Lex.Stream.{LexToken}
use rua_lang.LineIndex.RoundTrip.{str_slice-ok}
use rua_lang.Source
use rua_lang.Source.{SourceRange, TokenData}
use rua_lang.Tokenize.{
  RuaTokenize, TokenizeError, advance_lines, range_of, next_start, skip_token, skip_step,
  is_strict_error, take_token, eof_token, after_trivia,
}
use rua_lang.Tokenize.Strict.{Stream, breaks_of, skipped, kept, refused, fate, data_of, strict}

abbrev pub at : List ℕ → List LexToken → ℕ → ℕ → RuaTokenize
at text tokens cursor line = record { text = text; tokens = tokens; cursor = cursor; line = line }

-- The tokens from the cursor on are `ts`, and lie end to end from `start` to the end of the text.
pub record Ready (text : List ℕ) (tokens : List LexToken) (cursor start : ℕ) (ts : List LexToken)
    : Type 0 where
  pub rest : drop cursor tokens ≡ ts
  pub tiles : Tiles text start ts (length text)
  pub boundary : is_char_boundary text start ≡ true

-- What `fate` says of a token.
pub data Fated (t : LexToken) : Type 0 where
  skips : is_trivia t.kind ≡ true → t.error ≡ none → fate t ≡ skipped → Fated t
  keeps : is_trivia t.kind ≡ false → t.error ≡ none → fate t ≡ kept → Fated t
  pardons :
      (e : LexErrorKind)
      → is_trivia t.kind ≡ false
      → t.error ≡ some e
      → is_strict_error e ≡ false
      → fate t ≡ kept
      → Fated t
  rejects_trivia :
      (e : LexErrorKind) → is_trivia t.kind ≡ true → t.error ≡ some e → fate t ≡ refused e → Fated t
  rejects :
      (e : LexErrorKind)
      → is_trivia t.kind ≡ false
      → t.error ≡ some e
      → is_strict_error e ≡ true
      → fate t ≡ refused e
      → Fated t

pub fate-cases : (t : LexToken) → Fated t
unfolding fate is_strict_error
fate-cases t = elim (Bool-cases (is_trivia t.kind)) [
  | inl y ↦ elim (Option-cases t.error) [
    | inl n ↦ skips y n (rw (y, n) refl)
    | inr (e, i) ↦ rejects_trivia e y i (rw (y, i) refl)
  ]
  | inr n ↦ elim (Option-cases t.error) [
    | inl m ↦ keeps n m (rw (n, m) refl)
    | inr (e, i) ↦ by_kind e n i
  ]
]
  where
    by_kind : (e : LexErrorKind) → is_trivia t.kind ≡ false → t.error ≡ some e → Fated t
    by_kind LexErrorKind.unknown_character n i =
        pardons LexErrorKind.unknown_character n i refl (rw (n, i) refl)
    by_kind LexErrorKind.unterminated_string n i =
        rejects LexErrorKind.unterminated_string n i refl (rw (n, i) refl)
    by_kind LexErrorKind.unterminated_block_comment n i =
        rejects LexErrorKind.unterminated_block_comment n i refl (rw (n, i) refl)
    by_kind LexErrorKind.unterminated_lua_block n i =
        rejects LexErrorKind.unterminated_lua_block n i refl (rw (n, i) refl)

module _ (text : List ℕ) (a b l : ℕ) (t : LexToken) (ts : List LexToken) where
  pub strict-skipped :
      fate t ≡ skipped → strict text a b l (t ∷ ts) ≡ strict text a b (l + breaks_of text t) ts
  unfolding strict
  strict-skipped f = rw (strict, f) refl

  pub strict-refused :
      (e : LexErrorKind)
      → fate t ≡ refused e
      → strict text a b l (t ∷ ts)
        ≡ record { front = []; last = error (record { kind = e; range = range_of t l }) }
  unfolding strict
  strict-refused e f = rw (strict, f) refl

  pub strict-kept :
      fate t ≡ kept
      → strict text a b l (t ∷ ts) ≡ (
          let behind = strict text t.range.end (l + breaks_of text t) (l + breaks_of text t) ts in
          record { front = data_of a b l t ∷ behind.front; last = behind.last })
  unfolding strict
  strict-kept f = rw (strict, f) refl

module _ (text : List ℕ) (tokens : List LexToken) where
  module _ (cursor start : ℕ) (t : LexToken) (ts : List LexToken)
      (ready : Ready text tokens cursor start (t ∷ ts)) where
    at_token : get_elem? tokens cursor ≡ some t
    at_token = (drop-eq-cons tokens cursor ready.rest).0

    Ready-suc : Ready text tokens (cursor + 1) t.range.end ts
    Ready-suc = record {
      rest = (drop-eq-cons tokens cursor ready.rest).1;
      tiles = ready.tiles.2;
      boundary = ready.tiles.1.boundary;
    }

    advance_lines-ok :
        (cursor' line : ℕ)
        → advance_lines (at text tokens cursor' line) t
          ≡ ok (at text tokens cursor' (line + breaks_of text t))
    unfolding advance_lines
    advance_lines-ok cursor' line =
        let (s, e, _) = ready.tiles in
        rw
          (str_slice-ok text t.range.start t.range.end
            (ap (is_char_boundary text) s ∙ ready.boundary) e.boundary (omega (arith, s, e.past)))
          refl

    pub next_start-token : (line : ℕ) → next_start (at text tokens cursor line) ≡ t.range.start
    unfolding next_start
    next_start-token line = rw at_token refl

    -- rounds of `skip_trivia` on each kind of token
    skip_step-skips :
        (line : ℕ)
        → is_trivia t.kind ≡ true
        → t.error ≡ none
        → skip_step (at text tokens cursor line)
          ≡ ok (go (at text tokens (cursor + 1) (line + breaks_of text t)))
    unfolding skip_step skip_token
    skip_step-skips line y n =
        rw (at_token, skip_token, y, advance_lines-ok (cursor + 1) line, n) refl

    skip_step-rejects :
        (line : ℕ) (e : LexErrorKind)
        → is_trivia t.kind ≡ true
        → t.error ≡ some e
        → skip_step (at text tokens cursor line)
          ≡ ok (
              stop (
                at text tokens (cursor + 1) (line + breaks_of text t),
                some (record { kind = e; range = range_of t line }),
              ))
    unfolding skip_step skip_token range_of
    skip_step-rejects line e y i =
        rw (at_token, skip_token, y, advance_lines-ok (cursor + 1) line, i) refl

    skip_step-stops :
        (line : ℕ)
        → is_trivia t.kind ≡ false
        → skip_step (at text tokens cursor line) ≡ ok (stop (at text tokens cursor line, none))
    unfolding skip_step skip_token
    skip_step-stops line n = rw (at_token, skip_token, n) refl

    -- `next_token` at a token that is no trivia
    after_trivia-token :
        (trivia_start trivia_line line : ℕ)
        → after_trivia trivia_start trivia_line (at text tokens cursor line, none)
          ≡ take_token
              (at text tokens cursor line)
              (Source.new trivia_start (t.range.start - trivia_start) trivia_line)
              t
    unfolding after_trivia
    after_trivia-token trivia_start trivia_line line = rw (at_token, next_start-token line) refl

    take_token-ok :
        (line : ℕ) (trivia : SourceRange)
        → is_trivia t.kind ≡ false
        → fate t ≡ kept
        → take_token (at text tokens cursor line) trivia t
          ≡ ok (
            at text tokens (cursor + 1) (line + breaks_of text t),
            done (record { kind = t.kind; range = range_of t line; leading_trivia = trivia }),
          )
    unfolding take_token
    take_token-ok line trivia n k = elim (fate-cases t) [
      | skips y m f ↦ cc
      | rejects_trivia e y i f ↦ cc
      | rejects e m i x f ↦ cc
      | keeps m i f ↦ rw (advance_lines-ok (cursor + 1) line) (simp i)
      | pardons e m i x f ↦ rw (advance_lines-ok (cursor + 1) line) (simp (i, x))
    ]

    take_token-rejects :
        (line : ℕ) (trivia : SourceRange) (e : LexErrorKind)
        → t.error ≡ some e
        → is_strict_error e ≡ true
        → take_token (at text tokens cursor line) trivia t
          ≡ ok (
            at text tokens (cursor + 1) (line + breaks_of text t),
            error (record { kind = e; range = range_of t line }),
          )
    unfolding take_token
    take_token-rejects line trivia e i x = rw (advance_lines-ok (cursor + 1) line) (simp (i, x))

  -- The end of the text.
  module _ (cursor start : ℕ) (ready : Ready text tokens cursor start []) where
    at_end : get_elem? tokens cursor ≡ none
    at_end = get_elem?-none tokens cursor (drop-eq-nil tokens cursor ready.rest)

    pub next_start-end : (line : ℕ) → next_start (at text tokens cursor line) ≡ length text
    unfolding next_start
    next_start-end line = rw at_end refl

    pub skip_step-end :
        (line : ℕ)
        → skip_step (at text tokens cursor line) ≡ ok (stop (at text tokens cursor line, none))
    unfolding skip_step
    skip_step-end line = rw at_end refl

    pub after_trivia-end :
        (trivia_start trivia_line line : ℕ)
        → after_trivia trivia_start trivia_line (at text tokens cursor line, none)
          ≡ ok (
            at text tokens cursor line,
            done (
                eof_token
                  (at text tokens cursor line)
                  (Source.new trivia_start (length text - trivia_start) trivia_line)),
          )
    unfolding after_trivia
    after_trivia-end trivia_start trivia_line line = rw (at_end, next_start-end line) refl

  -- What a call of `next_token` gives, of the tokens left, and what is left to read.
  abbrev pub Gives :
      List TokenData
      → Result TokenizeError TokenData
      → Call (RuaTokenize × Result TokenizeError TokenData)
      → Type 0
  Gives [] (error e) call = (s : RuaTokenize) × (call ≡ ok (s, error e))
  Gives [] (done eof) call =
      (cursor : ℕ) × (line : ℕ) × (start : ℕ) × (call ≡ ok (at text tokens cursor line, done eof))
      × Ready text tokens cursor start []
  Gives (token ∷ front) last call =
      (cursor : ℕ) × (line : ℕ) × (start : ℕ) × (ts : List LexToken) × (call
        ≡ ok (at text tokens cursor line, done token))
      × Ready text tokens cursor start ts
      × (strict text start line line ts ≡ record { front = front; last = last })

  Gives-strict :
      (s s' : Stream) (call call' : Call (RuaTokenize × Result TokenizeError TokenData))
      → s ≡ s'
      → call ≡ call'
      → Gives s'.front s'.last call'
      → Gives s.front s.last call
  Gives-strict s s' call call' e c g =
      subst (λ s. Gives s.front s.last call) (sym e) (subst (Gives s'.front s'.last) (sym c) g)

  -- the rest of `next_token`, on `skip_trivia`
  abbrev pub go_on :
      ℕ
      → ℕ
      → Call (RuaTokenize × Option TokenizeError)
      → Call (RuaTokenize × Result TokenizeError TokenData)
  go_on trivia_start trivia_line call = call >>= after_trivia trivia_start trivia_line

  pub skip_trivia-strict :
      (fuel cursor start trivia_start trivia_line line : ℕ) (ts : List LexToken)
      → Ready text tokens cursor start ts
      → length ts < fuel
      → (let stream = strict text trivia_start trivia_line line ts in
          Gives stream.front stream.last
            (go_on trivia_start trivia_line (loop fuel skip_step (at text tokens cursor line))))
  skip_trivia-strict zero cursor start a b line ts ready h = absurd (omega arith)
  skip_trivia-strict (suc fuel) cursor start a b line [] ready h =
      let s = at text tokens cursor line in
      unfold strict eof_token in
      (
        cursor,
        line,
        start,
        ap (go_on a b)
              (loop-stop fuel skip_step s (s, none) (skip_step-end cursor start ready line))
            ∙ after_trivia-end cursor start ready a b line,
        ready,
      )
  skip_trivia-strict (suc fuel) cursor start a b line (t ∷ ts) ready h =
      let s = at text tokens cursor line in
      let s' = at text tokens (cursor + 1) (line + breaks_of text t) in
      let stopped = λ (n : is_trivia t.kind ≡ false).
        ap (go_on a b)
          (loop-stop fuel skip_step s (s, none) (skip_step-stops cursor start t ts ready line n))
        ∙ after_trivia-token cursor start t ts ready a b line in
      let keep = λ (n : is_trivia t.kind ≡ false) (f : fate t ≡ kept).
        Gives-strict _ _ _ _ (strict-kept text a b line t ts f)
          (stopped n
            ∙ take_token-ok cursor start t ts ready line (Source.new a (t.range.start - a) b) n f)
          (
            cursor + 1,
            line + breaks_of text t,
            t.range.end,
            ts,
            refl,
            Ready-suc cursor start t ts ready,
            refl,
          ) in
      elim (fate-cases t) [
        | skips y n f ↦
            Gives-strict _ _ _ _ (strict-skipped text a b line t ts f)
              (ap (go_on a b)
                (loop-go fuel skip_step s s' (skip_step-skips cursor start t ts ready line y n)))
              (skip_trivia-strict fuel (cursor + 1) t.range.end a b (line + breaks_of text t) ts
                (Ready-suc cursor start t ts ready) (omega arith))
        | rejects_trivia e y i f ↦
            Gives-strict _ _ _ _ (strict-refused text a b line t ts e f)
              (ap (go_on a b) (
                loop-stop fuel skip_step s _
                  (skip_step-rejects cursor start t ts ready line e y i)))
              (s', unfold after_trivia in refl)
        | rejects e n i x f ↦
            Gives-strict _ _ _ _ (strict-refused text a b line t ts e f)
              (stopped n
                ∙ take_token-rejects cursor start t ts ready line
                    (Source.new a (t.range.start - a) b) e i x)
              (s', refl)
        | keeps n i f ↦ keep n f
        | pardons e n i x f ↦ keep n f
      ]
