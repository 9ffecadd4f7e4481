-- ===== src/Tests/Utf8.antt =====
-- A test of the UTF-8 form that Rust keeps in a `str`.
use rua_lang.Base.{
  ℕ, ◌-◌, ◌≡◌, Bool, true, ◌&&◌, List, [], ◌∷◌, ◌==◌, ltb, if◌then◌else◌, Bool-cases, inl, inr,
  arith,
}
use rua_lang.Lex.Bytes.{is_continuation, len_utf8, Utf8After, nil, lead, cont}

-- Deciding that bytes are well formed.
unfoldable pub is_utf8_after : ℕ → List ℕ → Bool
is_utf8_after due [] = due == 0
is_utf8_after due (a ∷ r) =
    if is_continuation a
    then ltb 0 due && is_utf8_after (due - 1) r
    else due == 0 && ltb a 248 && is_utf8_after (len_utf8 a - 1) r

pub is_utf8_after_sound : (due : ℕ) (bs : List ℕ) → is_utf8_after due bs ≡ true → Utf8After due bs
unfolding is_utf8_after
is_utf8_after_sound due [] h = nil (ground arith)
is_utf8_after_sound due (a ∷ r) h = elim (Bool-cases (is_continuation a)) [
  | inl t ↦ cont a {due = due - 1} (ground arith) t (is_utf8_after_sound (due - 1) r (ground arith))
  | inr f ↦
      lead a {due = len_utf8 a - 1} (ground arith) (f, ground arith, ground arith)
        (is_utf8_after_sound (len_utf8 a - 1) r (ground arith))
]
