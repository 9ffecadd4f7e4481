-- ===== src/Lex/Keywords.antt =====
-- crates/rua-common/src/lex.rs: the keyword table and the spelling of the kinds.
use Prim.Native.String.{String}
use rua_lang.Base.{
  ℕ, ◌≡◌, refl, sym, ◌∙◌, ap, ◌↔◌, ◌⊎◌, inl, inr, Bool, true, false, ◌&&◌, List, [], ◌∷◌, if-both,
  codes, arith,
}
use rua_lang.Lex.Kind.{TokenKind, user_string, bytes_eq, keywords, find_keyword, keyword_kind}

bytes_eq_sound : (xs ys : List ℕ) → bytes_eq xs ys ≡ true → xs ≡ ys
unfolding bytes_eq
bytes_eq_sound [] [] h = refl
bytes_eq_sound [] (y ∷ ys) h = cc
bytes_eq_sound (x ∷ xs) [] h = cc
bytes_eq_sound (x ∷ xs) (y ∷ ys) h = ground (arith, bytes_eq_sound xs ys)

bytes_eq_self : (xs : List ℕ) → bytes_eq xs xs ≡ true
unfolding bytes_eq
bytes_eq_self [] = refl
bytes_eq_self (x ∷ xs) = ground (arith, bytes_eq_self xs)

pub bytes_eq_iff : (xs ys : List ℕ) → (bytes_eq xs ys ≡ true) ↔ (xs ≡ ys)
bytes_eq_iff xs ys = (bytes_eq_sound xs ys, λ e. rw e (bytes_eq_self ys))

-- Each arm's word is the spelling of its kind.
abbrev all_spelled : List (String × TokenKind) → Bool
all_spelled [] = true
all_spelled ((name, kind) ∷ arms) =
    bytes_eq (codes name) (codes (user_string kind)) && all_spelled arms

find_keyword-spelled :
    (arms : List (String × TokenKind)) (word : List ℕ)
    → all_spelled arms ≡ true
    → (find_keyword arms word ≡ TokenKind.ident)
      ⊎ (word ≡ codes (user_string (find_keyword arms word)))
unfolding find_keyword
find_keyword-spelled [] word h = inl refl
find_keyword-spelled ((name, kind) ∷ arms) word h =
    if-both (λ k. (k ≡ TokenKind.ident) ⊎ (word ≡ codes (user_string k)))
      (bytes_eq word (codes name))
      (λ t. inr (
        bytes_eq_sound word (codes name) t
        ∙ bytes_eq_sound (codes name) (codes (user_string kind)) (ground arith)))
      (λ f. find_keyword-spelled arms word (ground arith))

keywords-spelled : all_spelled keywords ≡ true
unfolding user_string bytes_eq
keywords-spelled = refl

-- The kinds of the reserved words.
unfoldable pub is_keyword : TokenKind → Bool
is_keyword TokenKind.kw_fn = true
is_keyword TokenKind.kw_let = true
is_keyword TokenKind.kw_mut = true
is_keyword TokenKind.kw_if = true
is_keyword TokenKind.kw_else = true
is_keyword TokenKind.kw_while = true
is_keyword TokenKind.kw_loop = true
is_keyword TokenKind.kw_for = true
is_keyword TokenKind.kw_in = true
is_keyword TokenKind.kw_return = true
is_keyword TokenKind.kw_break = true
is_keyword TokenKind.kw_continue = true
is_keyword TokenKind.kw_dyn = true
is_keyword TokenKind.kw_true = true
is_keyword TokenKind.kw_false = true
is_keyword TokenKind.kw_struct = true
is_keyword TokenKind.kw_enum = true
is_keyword TokenKind.kw_trait = true
is_keyword TokenKind.kw_impl = true
is_keyword TokenKind.kw_pub = true
is_keyword TokenKind.kw_use = true
is_keyword TokenKind.kw_mod = true
is_keyword TokenKind.kw_as = true
is_keyword TokenKind.kw_match = true
is_keyword TokenKind.kw_self = true
is_keyword TokenKind.kw_extern = true
is_keyword _ = false

keyword_kind-user_string :
    (k : TokenKind) → is_keyword k ≡ true → keyword_kind (codes (user_string k)) ≡ k
unfolding is_keyword keyword_kind find_keyword user_string bytes_eq
keyword_kind-user_string TokenKind.kw_fn h = refl
keyword_kind-user_string _ h = ground arith

keyword-ne-ident : (k : TokenKind) → is_keyword k ≡ true → k ≡ TokenKind.ident → ⊥
unfolding is_keyword
keyword-ne-ident k h e = ground arith

-- For each reserved word's kind, the lexer's table gives that kind to exactly one word: the spelling
-- that `user_string` has for it.
pub keyword_kind_iff :
    (k : TokenKind) (word : List ℕ)
    → is_keyword k ≡ true
    → (keyword_kind word ≡ k) ↔ (word ≡ codes (user_string k))
unfolding keyword_kind
keyword_kind_iff k word h = (
  λ e. elim (find_keyword-spelled keywords word keywords-spelled) [
    | inl plain ↦ absurd (keyword-ne-ident k h (sym e ∙ plain))
    | inr same ↦ same ∙ ap (λ j. codes (user_string j)) e
  ],
  λ e. rw e (keyword_kind-user_string k h),
)
