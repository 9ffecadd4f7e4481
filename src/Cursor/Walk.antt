-- ===== src/Cursor/Walk.antt =====
-- crates/ruac/src/lexer.rs: the tokens that the cursor shows as it is moved.
use mathlib.Core.Path.{subst}
use rua_lang.Base.{
  ℕ, ◌≤◌, ◌≡◌, refl, ◌∙◌, ap, true, false, List, [], ◌∷◌, none, some, All, ok, done, length,
}
use rua_lang.Cursor.{RuaLexer, new, from_stream, first_token, second_token, bump, refill}
use rua_lang.Lex.Bytes.{IsUtf8}
use rua_lang.Lex.Kind.{TokenKind}
use rua_lang.Lex.NotEof.{is_eof}
use rua_lang.Lex.Range.{u32_max}
use rua_lang.Source
use rua_lang.Source.{SourceRange, TokenData}
use rua_lang.Tokenize.{RuaTokenize, TokenizeError, next_token, unlimited}
use rua_lang.Tokenize as Tokenize
use rua_lang.Tokenize.Cover.{Reads, Covers, next_token-Tokenized}

-- the first of some tokens that `last` ends
abbrev pub head_or : List TokenData → TokenData → TokenData
head_or [] last = last
head_or (token ∷ front) last = token

-- The cursor shows `front`, token by token, each with the one behind it, and then `eof`. Behind that
-- it shows tokens of the kind `eof`.
abbrev pub Shows : RuaLexer → List TokenData → TokenData → Type 0
Shows l [] eof =
    (l.current_token ≡ eof)
    × (l.next_data.kind ≡ TokenKind.eof)
    × ((l' : RuaLexer) × (bump l ≡ ok (l', none))
        × (l'.current_token.kind ≡ TokenKind.eof)
        × (l'.next_data.kind ≡ TokenKind.eof))
Shows l (token ∷ front) eof =
    (l.current_token ≡ token)
    × (l.next_data ≡ head_or front eof)
    × ((l' : RuaLexer) × (bump l ≡ ok (l', none))
        × (l'.previous ≡ some token.range)
        × Shows l' front eof)

-- at the end of the text, with the end behind it too
Shows-end :
    (l : RuaLexer) (eof : TokenData)
    → l.current_token ≡ eof
    → l.next_data.kind ≡ TokenKind.eof
    → Shows l [] eof
unfolding bump is_eof
Shows-end l eof c n = (
  c,
  n,
  (
    record l { previous = some l.current_token.range; current_token = l.next_data },
    rw n refl,
    n,
    n,
  ),
)

Covers-eof :
    (text : List ℕ) (start : ℕ) (front : List TokenData) (eof : TokenData)
    → Covers text start front (done eof)
    → eof.kind ≡ TokenKind.eof
Covers-eof text start [] eof c = c.3
Covers-eof text start (token ∷ front) eof c = Covers-eof text (Source.end token.range) front eof c.4

-- The tokenizer of a cursor has read one token of `front` and `eof`.
abbrev Behind : RuaTokenize → List TokenData → TokenData → Type 0
Behind s [] eof = Unit {0}
Behind s (token ∷ front) eof = Reads s front (done eof)

Reads-Behind :
    (s : RuaTokenize) (front : List TokenData) (eof : TokenData)
    → Reads s front (done eof)
    → (s' : RuaTokenize) × (next_token s ≡ ok (s', done (head_or front eof))) × Behind s' front eof
Reads-Behind s [] eof (s', e, again) = (s', e, tt)
Reads-Behind s (token ∷ front) eof (s', e, more) = (s', e, more)

bump-token :
    (l : RuaLexer) (s' : RuaTokenize) (token : TokenData)
    → is_eof l.next_data.kind ≡ false
    → next_token l.tokenizer ≡ ok (s', done token)
    → bump l
      ≡ ok (
        record l {
          tokenizer = s';
          current_token = l.next_data;
          next_data = token;
          previous = some l.current_token.range;
        },
        none,
      )
unfolding bump refill
bump-token l s' token n e = rw (n, e) refl

bump-eof :
    (l : RuaLexer)
    → is_eof l.next_data.kind ≡ true
    → bump l
      ≡ ok (record l { current_token = l.next_data; previous = some l.current_token.range }, none)
unfolding bump
bump-eof l n = rw n refl

-- with `front` still to read behind the current token
Shows-Reads :
    (l : RuaLexer) (token : TokenData) (front : List TokenData) (eof : TokenData)
    → l.current_token ≡ token
    → l.next_data ≡ head_or front eof
    → All (λ (d : TokenData). is_eof d.kind ≡ false) front
    → eof.kind ≡ TokenKind.eof
    → Behind l.tokenizer front eof
    → Shows l (token ∷ front) eof
Shows-Reads l token [] eof c n k e b =
    let l' = record l { current_token = l.next_data; previous = some l.current_token.range } in
    let kind : l.next_data.kind ≡ TokenKind.eof = ap (λ (d : TokenData). d.kind) n ∙ e in
    (
      c,
      n,
      (
        l',
        bump-eof l (ap is_eof kind ∙ unfold is_eof in refl),
        ap (λ (d : TokenData). some d.range) c,
        Shows-end l' eof n kind,
      ),
    )
Shows-Reads l token (d ∷ front) eof c n (k, ks) e b =
    let (s', call, b') = Reads-Behind l.tokenizer front eof b in
    let l' = record l {
      tokenizer = s';
      current_token = l.next_data;
      next_data = head_or front eof;
      previous = some l.current_token.range;
    } in
    (
      c,
      n,
      (
        l',
        bump-token l s' (head_or front eof) (ap (λ (d : TokenData). is_eof d.kind) n ∙ k) call,
        ap (λ (d : TokenData). some d.range) c,
        Shows-Reads l' d front eof n refl ks e b',
      ),
    )

from_stream-Shows :
    (stream : Tokenize.StrictTokenStream) (front : List TokenData) (eof : TokenData)
    → Reads (Tokenize.from_stream stream) front (done eof)
    → All (λ (d : TokenData). is_eof d.kind ≡ false) front
    → eof.kind ≡ TokenKind.eof
    → (l : RuaLexer) × (from_stream stream ≡ ok (done l)) × (l.previous ≡ none) × Shows l front eof
unfolding from_stream first_token second_token
from_stream-Shows stream [] eof (s', e, (again, e', k)) ks kind =
    let l : RuaLexer = record {
      text = stream.text;
      tokenizer = s';
      current_token = eof;
      next_data = again;
      previous = none;
    } in
    (l, rw (e, e') refl, refl, Shows-end l eof refl k)
from_stream-Shows stream (token ∷ front) eof (s', e, more) (k, ks) kind =
    let (s'', call, b) = Reads-Behind s' front eof more in
    let l : RuaLexer = record {
      text = stream.text;
      tokenizer = s'';
      current_token = token;
      next_data = head_or front eof;
      previous = none;
    } in
    (l, rw (e, call) refl, refl, Shows-Reads l token front eof refl refl ks kind b)

-- For every UTF-8 text of at most `u32::MAX` bytes whose strict tokens end in an `eof` token, `new`
-- returns a cursor that shows these tokens: the current one, with the next one to peek at, moved on
-- by one at each `bump`, up to the end of the text, where it stays.
pub new-Shows :
    (text : List ℕ) (u : IsUtf8 text) (small : length text ≤ u32_max) (eof : TokenData)
    → (next_token-Tokenized text u small).last ≡ done eof
    → (l : RuaLexer) × (new text ≡ ok (done l))
      × (l.previous ≡ none)
      × Shows l (next_token-Tokenized text u small).front eof
unfolding new
new-Shows text u small eof e =
    let t = next_token-Tokenized text u small in
    let (l, call, p, shows) =
      from_stream-Shows t.stream t.front eof
        (subst (Reads (Tokenize.from_stream t.stream) t.front) e t.reads) t.kinds
        (Covers-eof text 0 t.front eof (subst (Covers text 0 t.front) e t.covers)) in
    (l, rw (t.returns) call, p, shows)
