-- ===== src/Backend/Safe.antt =====
-- crates/ruac/src/backend_layout.rs: names that Lua can read, and that differ where the source's do.
use rua_lang.Base.{
  ℕ, ◌/◌, ◌%◌, ◌<◌, ◌≡◌, ◌≢◌, refl, sym, ◌∙◌, ap, inl, inr, true, false, List, [], ◌∷◌, ◌++◌, All,
  Bool-cases, codes, arith,
}
use rua_lang.Lex.Kind.{bytes_eq}
use rua_lang.Backend.Names.{
  starts_with, lua_keywords, contains, is_word_byte, all_word, is_word, is_plain_identifier,
  hex_digit, hex, user_identifier,
}

-- A name that Lua reads as a variable, and that stands apart from the compiler's own names.
pub record IsSafe (name : List ℕ) : Type 0 where
  pub word : is_word name ≡ true
  pub no_keyword : contains lua_keywords name ≡ false
  pub no_temporary : starts_with (codes "__t") name ≡ false
  pub no_rt : bytes_eq name (codes "rt") ≡ false
  pub no_tbcreate : bytes_eq name (codes "tbcreate") ≡ false

abbrev pub IsBytes : List ℕ → Type 0
IsBytes = All (λ b. b < 256)

hex_digit-word : (n : ℕ) → n < 16 → is_word_byte (hex_digit n) ≡ true
unfolding hex_digit is_word_byte
hex_digit-word n h = ground arith

hex-all_word : (name : List ℕ) → IsBytes name → all_word (hex name) ≡ true
unfolding hex all_word
hex-all_word [] h = refl
hex-all_word (b ∷ bs) (h, hs) =
    rw (hex_digit-word (b / 16) (omega arith), hex_digit-word (b % 16) (omega arith))
      (hex-all_word bs hs)

encoded-IsSafe : (name : List ℕ) → IsBytes name → IsSafe (codes "__rua_user_" ++ hex name)
unfolding is_word all_word is_word_byte contains starts_with bytes_eq
encoded-IsSafe name h = record {
  word = rw (hex-all_word name h) refl;
  no_keyword = refl;
  no_temporary = refl;
  no_rt = refl;
  no_tbcreate = refl;
}

-- What `is_plain_identifier` finds out.
pub record IsPlain (name : List ℕ) : Type 0 where
  pub safe : IsSafe name
  pub no_prefix : starts_with (codes "__rua_") name ≡ false

is_plain_identifier-IsPlain : (name : List ℕ) → is_plain_identifier name ≡ true → IsPlain name
unfolding is_plain_identifier
is_plain_identifier-IsPlain name h = elim (Bool-cases (is_word name)) [
  | inl w ↦ record {
    safe = record {
      word = w;
      no_keyword = ground arith;
      no_temporary = ground arith;
      no_rt = ground arith;
      no_tbcreate = ground arith;
    };
    no_prefix = ground arith;
  }
  | inr n ↦ ground arith
]

module _ (name : List ℕ) where
  user_identifier-plain : is_plain_identifier name ≡ true → user_identifier name ≡ name
  unfolding user_identifier
  user_identifier-plain p = rw p refl

  user_identifier-encoded :
      is_plain_identifier name ≡ false → user_identifier name ≡ codes "__rua_user_" ++ hex name
  unfolding user_identifier
  user_identifier-encoded n = rw n refl

-- For every name, given by its bytes, `user_identifier` returns a Lua variable that is no keyword,
-- none of the temporaries `__t…` and neither `rt` nor `tbcreate`.
pub user_identifier-IsSafe : (name : List ℕ) → IsBytes name → IsSafe (user_identifier name)
user_identifier-IsSafe name h = elim (Bool-cases (is_plain_identifier name)) [
  | inl p ↦ rw (user_identifier-plain name p) (is_plain_identifier-IsPlain name p).safe
  | inr n ↦ rw (user_identifier-encoded name n) (encoded-IsSafe name h)
]

hex_digit_inj : (m n : ℕ) → m < 16 → n < 16 → hex_digit m ≡ hex_digit n → m ≡ n
unfolding hex_digit
hex_digit_inj m n h k e = ground arith

hex_inj : (a b : List ℕ) → IsBytes a → IsBytes b → hex a ≡ hex b → a ≡ b
unfolding hex
hex_inj [] [] h k e = refl
hex_inj [] (y ∷ ys) h k e = cc
hex_inj (x ∷ xs) [] h k e = cc
hex_inj (x ∷ xs) (y ∷ ys) (h, hs) (k, ks) e =
    let high : hex_digit (x / 16) ≡ hex_digit (y / 16) = cc in
    let low : hex_digit (x % 16) ≡ hex_digit (y % 16) = cc in
    let rest : hex xs ≡ hex ys = cc in
    let same : x ≡ y = omega (
      arith,
      hex_digit_inj _ _ (omega arith) (omega arith) high,
      hex_digit_inj (x % 16) (y % 16) (omega arith) (omega arith) low,
    ) in
    rw (same, hex_inj xs ys hs ks rest) refl

append_inj : (front a b : List ℕ) → front ++ a ≡ front ++ b → a ≡ b
append_inj [] a b e = e
append_inj (c ∷ front) a b e = append_inj front a b cc

plain≢encoded : (a b : List ℕ) → is_plain_identifier a ≡ true → a ≢ codes "__rua_user_" ++ hex b
unfolding starts_with
plain≢encoded a b p e =
    let no : starts_with (codes "__rua_") (codes "__rua_user_" ++ hex b) ≡ false =
      ap (starts_with (codes "__rua_")) (sym e) ∙ (is_plain_identifier-IsPlain a p).no_prefix in
    cc

identifier_inj :
    (a b : List ℕ) → IsBytes a → IsBytes b → user_identifier a ≡ user_identifier b → a ≡ b
identifier_inj a b h k e = elim (Bool-cases (is_plain_identifier a)) [
  | inl p ↦ elim (Bool-cases (is_plain_identifier b)) [
    | inl q ↦ sym (user_identifier-plain a p) ∙ e ∙ user_identifier-plain b q
    | inr q ↦
        absurd
          (plain≢encoded a b p (sym (user_identifier-plain a p) ∙ e ∙ user_identifier-encoded b q))
  ]
  | inr p ↦ elim (Bool-cases (is_plain_identifier b)) [
    | inl q ↦ absurd (
        plain≢encoded b a q (sym (user_identifier-plain b q) ∙ sym e ∙ user_identifier-encoded a p))
    | inr q ↦ hex_inj a b h k (
        append_inj (codes "__rua_user_") (hex a) (hex b)
          (sym (user_identifier-encoded a p) ∙ e ∙ user_identifier-encoded b q))
  ]
]

-- For two different names, given by their bytes, `user_identifier` returns different names.
pub user_identifier_inj :
    (a b : List ℕ) → IsBytes a → IsBytes b → a ≢ b → user_identifier a ≢ user_identifier b
user_identifier_inj a b h k differ e = differ (identifier_inj a b h k e)
