-- ===== src/Stacktrace/Parse.antt =====
-- crates/ruac/src/stacktrace.rs: the parser of Lua's tracebacks. A traceback is the list of its
-- characters; the colons and digits that the source finds by their bytes are single characters.
use rua_lang.Base.{
  ℕ, Bool, true, false, not, ◌&&◌, ◌||◌, List, [], ◌∷◌, ◌++◌, Option, none, some, ◌==◌,
  if◌then◌else◌, codes,
}
use rua_lang.Lex.Kind.{bytes_eq}
use rua_lang.Text.{trim, strip_prefix, strip_suffix, lines, span_digits, parse_usize}

pub record LuaStackFrame : Type 0 where
  pub source : List ℕ
  pub line : Option ℕ
  pub function : Option (List ℕ)
  pub raw : List ℕ

pub record LuaTraceback : Type 0 where
  pub message : List ℕ
  pub frames : List LuaStackFrame

pub record Location : Type 0 where
  pub source : List ℕ
  pub line : ℕ
  pub suffix : List ℕ

-- What the loop does at one colon.
pub data AtColon : Type 0 where
  try_next give_up : AtColon
  found : Location → AtColon

unfoldable pub starts_with_colon : List ℕ → Bool
starts_with_colon [] = false
starts_with_colon (c ∷ cs) = c == b':'

abbrev pub is_empty : List ℕ → Bool
is_empty [] = true
is_empty (c ∷ cs) = false

-- the rest of a round, on the digits behind a colon and what is behind them
unfoldable pub at_number : List ℕ → List ℕ → List ℕ → AtColon
at_number before digits suffix =
    if is_empty digits
    then try_next
    else if not (is_empty suffix) && not (starts_with_colon suffix)
    then try_next
    else elim (parse_usize digits) [
      | none ↦ give_up
      | some line ↦
          if is_empty (trim before)
          then try_next
          else found (record { source = trim before; line = line; suffix = suffix })
    ]

-- at a colon with `before` in front of it and `after` behind it
unfoldable pub at_colon : List ℕ → List ℕ → AtColon
at_colon before after = let (digits, suffix) = span_digits after in at_number before digits suffix

-- the loop over the colons; `before` is what it has passed
unfoldable pub locate : List ℕ → List ℕ → Option Location
locate before [] = none
locate before (c ∷ after) =
    let rest = locate (before ++ c ∷ []) after in
    if c == b':'
    then elim (at_colon before after) [ found l ↦ some l | give_up ↦ none | try_next ↦ rest ]
    else rest

unfoldable pub parse_location : List ℕ → Option Location
parse_location value = locate [] value

-- `suffix.strip_prefix(':').map(str::trim)`
abbrev pub behind_colon : List ℕ → Option (List ℕ)
behind_colon suffix = elim (strip_prefix (codes ":") suffix) [
  | none ↦ none
  | some rest ↦ some (trim rest)
]

abbrev pub unwrap_or {ℓ} : {A : Type ℓ} → Option A → A → A
unwrap_or none otherwise = otherwise
unwrap_or (some a) otherwise = a

-- the message and the frame of the first line
unfoldable pub parse_first : List ℕ → List ℕ × List LuaStackFrame
parse_first first =
    let message_line = trim (unwrap_or (strip_prefix (codes "lua:") first) first) in
    elim (parse_location message_line) [
      | none ↦ (message_line, [])
      | some l ↦ (
        unwrap_or (behind_colon l.suffix) [],
        (record { source = l.source; line = some l.line; function = none; raw = first }) ∷ [],
      )
    ]

-- the frames of a line behind the first
unfoldable pub parse_frame : List ℕ → List LuaStackFrame
parse_frame line =
    let raw = trim line in
    if is_empty raw || bytes_eq raw (codes "stack traceback:")
    then []
    else elim (parse_location raw) [
      | none ↦ elim (strip_suffix (codes ": in ?") raw) [
        | none ↦ []
        | some source ↦
            (record { source = source; line = none; function = some (codes "?"); raw = raw }) ∷ []
      ]
      | some l ↦
          (record {
            source = l.source;
            line = some l.line;
            function = elim (behind_colon l.suffix) [
              | none ↦ none
              | some rest ↦ strip_prefix (codes "in ") rest
            ];
            raw = raw;
          })
          ∷ []
    ]

unfoldable pub parse_frames : List (List ℕ) → List LuaStackFrame
parse_frames [] = []
parse_frames (line ∷ rest) = parse_frame line ++ parse_frames rest

unfoldable pub parse_lines : List (List ℕ) → LuaTraceback
parse_lines [] =
    let (message, frames) = parse_first (trim []) in record { message = message; frames = frames }
parse_lines (line ∷ rest) =
    let (message, frames) = parse_first (trim line) in
    record { message = message; frames = frames ++ parse_frames rest }

unfoldable pub parse_lua_traceback : List ℕ → LuaTraceback
parse_lua_traceback traceback = parse_lines (lines traceback)
