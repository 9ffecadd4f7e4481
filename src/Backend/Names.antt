-- ===== src/Backend/Names.antt =====
-- crates/ruac/src/backend_layout.rs: `user_identifier`. A name is the list of its bytes.
use rua_lang.Base.{
  ℕ, ◌+◌, ◌-◌, ◌/◌, ◌%◌, Bool, true, false, not, ◌&&◌, ◌||◌, List, [], ◌∷◌, ◌++◌, ◌==◌, ltb,
  if◌then◌else◌, codes,
}
use rua_lang.Lex.Bytes.{is_ascii_alphabetic, is_ascii_alphanumeric}
use rua_lang.Lex.Kind.{bytes_eq}

unfoldable pub starts_with : List ℕ → List ℕ → Bool
starts_with [] name = true
starts_with (p ∷ ps) [] = false
starts_with (p ∷ ps) (c ∷ cs) = p == c && starts_with ps cs

abbrev pub lua_keywords : List (List ℕ)
lua_keywords =
    codes "and"
    ∷ codes "break"
    ∷ codes "do"
    ∷ codes "else"
    ∷ codes "elseif"
    ∷ codes "end"
    ∷ codes "false"
    ∷ codes "for"
    ∷ codes "function"
    ∷ codes "goto"
    ∷ codes "if"
    ∷ codes "in"
    ∷ codes "local"
    ∷ codes "nil"
    ∷ codes "not"
    ∷ codes "or"
    ∷ codes "repeat"
    ∷ codes "return"
    ∷ codes "then"
    ∷ codes "true"
    ∷ codes "until"
    ∷ codes "while"
    ∷ []

-- membership in a list or a set of names
unfoldable pub contains : List (List ℕ) → List ℕ → Bool
contains [] name = false
contains (x ∷ xs) name = bytes_eq x name || contains xs name

unfoldable pub is_word_byte : ℕ → Bool
is_word_byte b = is_ascii_alphanumeric b || b == b'_'

unfoldable pub all_word : List ℕ → Bool
all_word [] = true
all_word (b ∷ bs) = is_word_byte b && all_word bs

unfoldable pub is_word : List ℕ → Bool
is_word [] = false
is_word (first ∷ rest) =
    if not (is_ascii_alphabetic first || first == b'_') || not (all_word rest) then false else true

unfoldable pub is_plain_identifier : List ℕ → Bool
is_plain_identifier name =
    if not (is_word name)
    then false
    else not (contains lua_keywords name)
      && not (starts_with (codes "__rua_") name)
      && not (starts_with (codes "__t") name)
      && not (bytes_eq name (codes "rt"))
      && not (bytes_eq name (codes "tbcreate"))

unfoldable pub hex_digit : ℕ → ℕ
hex_digit n = if ltb n 10 then b'0' + n else b'a' + n - 10

-- `{byte:02x}` for each byte
unfoldable pub hex : List ℕ → List ℕ
hex [] = []
hex (b ∷ bs) = hex_digit (b / 16) ∷ hex_digit (b % 16) ∷ hex bs

unfoldable pub user_identifier : List ℕ → List ℕ
user_identifier name = if is_plain_identifier name then name else codes "__rua_user_" ++ hex name
