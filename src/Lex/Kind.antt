-- ===== src/Lex/Kind.antt =====
-- crates/rua-common/src/lex.rs: the kinds of tokens and of lexical errors, their spelling, and the
-- keyword table. A word is the list of its bytes.
use Prim.Native.String.{String}
use rua_lang.Base.{ℕ, Bool, true, false, ◌&&◌, List, [], ◌∷◌, ◌==◌, if◌then◌else◌, codes}

pub data TokenKind : Type 0 where
  whitespace line_comment block_comment : TokenKind
  kw_fn kw_let kw_mut kw_if kw_else kw_while kw_loop kw_for kw_in kw_return kw_break : TokenKind
  kw_continue kw_dyn kw_true kw_false kw_struct kw_enum kw_trait kw_impl kw_pub kw_use : TokenKind
  kw_mod kw_as kw_match kw_self kw_extern : TokenKind
  lua_block ident int float str : TokenKind
  plus plus_eq minus minus_eq star star_eq slash slash_eq percent percent_eq : TokenKind
  eq eq_eq ne lt le gt ge and_and or_or bang amp pipe : TokenKind
  question question_question question_dot arrow fat_arrow colon_colon colon : TokenKind
  semi comma dot dot_dot dot_dot_eq hash : TokenKind
  l_paren r_paren l_brace r_brace l_bracket r_bracket eof unknown : TokenKind

unfoldable pub is_trivia : TokenKind → Bool
is_trivia TokenKind.whitespace = true
is_trivia TokenKind.line_comment = true
is_trivia TokenKind.block_comment = true
is_trivia _ = false

unfoldable pub is_comment : TokenKind → Bool
is_comment TokenKind.line_comment = true
is_comment TokenKind.block_comment = true
is_comment _ = false

unfoldable pub user_string : TokenKind → String
user_string TokenKind.whitespace = "<whitespace>"
user_string TokenKind.line_comment = "<comment>"
user_string TokenKind.block_comment = "<comment>"
user_string TokenKind.kw_fn = "fn"
user_string TokenKind.kw_let = "let"
user_string TokenKind.kw_mut = "mut"
user_string TokenKind.kw_if = "if"
user_string TokenKind.kw_else = "else"
user_string TokenKind.kw_while = "while"
user_string TokenKind.kw_loop = "loop"
user_string TokenKind.kw_for = "for"
user_string TokenKind.kw_in = "in"
user_string TokenKind.kw_return = "return"
user_string TokenKind.kw_break = "break"
user_string TokenKind.kw_continue = "continue"
user_string TokenKind.kw_dyn = "dyn"
user_string TokenKind.kw_true = "true"
user_string TokenKind.kw_false = "false"
user_string TokenKind.kw_struct = "struct"
user_string TokenKind.kw_enum = "enum"
user_string TokenKind.kw_trait = "trait"
user_string TokenKind.kw_impl = "impl"
user_string TokenKind.kw_pub = "pub"
user_string TokenKind.kw_use = "use"
user_string TokenKind.kw_mod = "mod"
user_string TokenKind.kw_as = "as"
user_string TokenKind.kw_match = "match"
user_string TokenKind.kw_self = "self"
user_string TokenKind.kw_extern = "extern"
user_string TokenKind.lua_block = "lua! { ... }"
user_string TokenKind.ident = "<ident>"
user_string TokenKind.int = "<int>"
user_string TokenKind.float = "<float>"
user_string TokenKind.str = "<string>"
user_string TokenKind.plus = "+"
user_string TokenKind.plus_eq = "+="
user_string TokenKind.minus = "-"
user_string TokenKind.minus_eq = "-="
user_string TokenKind.star = "*"
user_string TokenKind.star_eq = "*="
user_string TokenKind.slash = "/"
user_string TokenKind.slash_eq = "/="
user_string TokenKind.percent = "%"
user_string TokenKind.percent_eq = "%="
user_string TokenKind.eq = "="
user_string TokenKind.eq_eq = "=="
user_string TokenKind.ne = "!="
user_string TokenKind.lt = "<"
user_string TokenKind.le = "<="
user_string TokenKind.gt = ">"
user_string TokenKind.ge = ">="
user_string TokenKind.and_and = "&&"
user_string TokenKind.or_or = "||"
user_string TokenKind.bang = "!"
user_string TokenKind.amp = "&"
user_string TokenKind.pipe = "|"
user_string TokenKind.question = "?"
user_string TokenKind.question_question = "??"
user_string TokenKind.question_dot = "?."
user_string TokenKind.arrow = "->"
user_string TokenKind.fat_arrow = "=>"
user_string TokenKind.colon_colon = "::"
user_string TokenKind.colon = ":"
user_string TokenKind.semi = ";"
user_string TokenKind.comma = ","
user_string TokenKind.dot = "."
user_string TokenKind.dot_dot = ".."
user_string TokenKind.dot_dot_eq = "..="
user_string TokenKind.hash = "#"
user_string TokenKind.l_paren = "("
user_string TokenKind.r_paren = ")"
user_string TokenKind.l_brace = "{"
user_string TokenKind.r_brace = "}"
user_string TokenKind.l_bracket = "["
user_string TokenKind.r_bracket = "]"
user_string TokenKind.eof = "<eof>"
user_string TokenKind.unknown = "<unknown>"

pub data LexErrorKind : Type 0 where
  unknown_character unterminated_string unterminated_block_comment : LexErrorKind
  unterminated_lua_block : LexErrorKind

unfoldable pub message : LexErrorKind → String
message LexErrorKind.unknown_character = "unknown character"
message LexErrorKind.unterminated_string = "unterminated string"
message LexErrorKind.unterminated_block_comment = "unterminated block comment"
message LexErrorKind.unterminated_lua_block = "unterminated lua block"

-- `==` on byte slices
unfoldable pub bytes_eq : List ℕ → List ℕ → Bool
bytes_eq [] [] = true
bytes_eq (x ∷ xs) (y ∷ ys) = x == y && bytes_eq xs ys
bytes_eq _ _ = false

-- the arms of `keyword_kind`, in order
abbrev pub keywords : List (String × TokenKind)
keywords =
    ("fn", TokenKind.kw_fn)
    ∷ ("let", TokenKind.kw_let)
    ∷ ("mut", TokenKind.kw_mut)
    ∷ ("if", TokenKind.kw_if)
    ∷ ("else", TokenKind.kw_else)
    ∷ ("while", TokenKind.kw_while)
    ∷ ("loop", TokenKind.kw_loop)
    ∷ ("for", TokenKind.kw_for)
    ∷ ("in", TokenKind.kw_in)
    ∷ ("return", TokenKind.kw_return)
    ∷ ("break", TokenKind.kw_break)
    ∷ ("continue", TokenKind.kw_continue)
    ∷ ("dyn", TokenKind.kw_dyn)
    ∷ ("true", TokenKind.kw_true)
    ∷ ("false", TokenKind.kw_false)
    ∷ ("struct", TokenKind.kw_struct)
    ∷ ("enum", TokenKind.kw_enum)
    ∷ ("trait", TokenKind.kw_trait)
    ∷ ("impl", TokenKind.kw_impl)
    ∷ ("pub", TokenKind.kw_pub)
    ∷ ("use", TokenKind.kw_use)
    ∷ ("mod", TokenKind.kw_mod)
    ∷ ("as", TokenKind.kw_as)
    ∷ ("match", TokenKind.kw_match)
    ∷ ("self", TokenKind.kw_self)
    ∷ ("extern", TokenKind.kw_extern)
    ∷ []

unfoldable pub find_keyword : List (String × TokenKind) → List ℕ → TokenKind
find_keyword [] word = TokenKind.ident
find_keyword ((name, kind) ∷ arms) word =
    if bytes_eq word (codes name) then kind else find_keyword arms word

unfoldable pub keyword_kind : List ℕ → TokenKind
keyword_kind word = find_keyword keywords word
