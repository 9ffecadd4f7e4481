-- ===== src/Tests/Cursor.antt =====
-- crates/ruac/src/lexer.rs: the theorem at a small text.
use rua_lang.Tests.Lex.{sample, sample-IsUtf8, tokens_of-lex}
use rua_lang.Tests.Tokenize.{strict_tokens, strict_tokens-last, sample_eof}
use rua_lang.Base.{◌≤◌, ◌≡◌, sym, ◌∙◌, ap, ok, done, none, length, arith}
use rua_lang.Cursor.{RuaLexer, new}
use rua_lang.Cursor.Walk.{Shows, new-Shows}
use rua_lang.Lex.Range.{u32_max}
use rua_lang.Tokenize.Cover.{Tokenized, next_token-Tokenized}
use rua_lang.Tokenize.Strict.{Stream, strict}

last_of_sample : (t : Tokenized sample) → t.last ≡ done sample_eof
unfolding strict_tokens
last_of_sample t =
    ap (λ (s : Stream). s.last) (sym t.strictly)
    ∙ ap (λ ts. (strict sample 0 1 1 ts).last) (sym (tokens_of-lex t.stream.tokens t.lossless))
    ∙ strict_tokens-last

small : length sample ≤ u32_max
small = omega arith

new-Shows_example :
    (l : RuaLexer) × (new sample ≡ ok (done l))
    × (l.previous ≡ none)
    × Shows l (next_token-Tokenized sample sample-IsUtf8 small).front sample_eof
new-Shows_example =
    new-Shows sample sample-IsUtf8 small sample_eof
      (last_of_sample (next_token-Tokenized sample sample-IsUtf8 small))
