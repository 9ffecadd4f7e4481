-- ===== src/Stacktrace/ParseFrame.antt =====
-- crates/ruac/src/stacktrace.rs: the parser reads back the frames that Lua prints.
use rua_lang.Base.{
  ℕ, ◌≡◌, refl, sym, ◌∙◌, ap, inl, inr, true, false, List, [], ◌∷◌, ◌++◌, Option, none, some,
  Bool-cases, codes,
}
use rua_lang.Lex.Keywords.{bytes_eq_iff}
use rua_lang.Lex.Kind.{bytes_eq}
use rua_lang.Stacktrace.Location.{is_path}
use rua_lang.Stacktrace.Parse.{
  LuaStackFrame, Location, is_empty, parse_location, behind_colon, parse_frame,
}
use rua_lang.Stacktrace.Printed.{
  PrintedFrame, lua_function, native, print_location, print_frame, IsFrame,
}
use rua_lang.Text.{trim, strip_prefix, strip_suffix}
use rua_lang.Text.Trim.{
  starts_dark, ends_dark, starts_dark-append, strip_prefix-append, strip_suffix-append,
}
use rua_lang.Stacktrace.PrintedLines.{
  locate-none, is_path-append, dark_nonempty, parse_location-print, trim-space, function-IsInline,
  native-IsInline, print_frame-IsInline, trim-tab,
}

-- the frame that a printed one is read as
abbrev pub frame_of : PrintedFrame → LuaStackFrame
frame_of (lua_function path line function) = record {
  source = path;
  line = some line;
  function = some function;
  raw = print_frame (lua_function path line function);
}
frame_of (native chunk) = record {
  source = chunk;
  line = none;
  function = some (codes "?");
  raw = print_frame (native chunk);
}

abbrev pub heading : List ℕ
heading = codes "stack traceback:"

heading-none : parse_location heading ≡ none
unfolding parse_location is_path
heading-none = locate-none [] heading refl

-- A line with a location is no heading.
not_heading :
    (raw : List ℕ) (l : Location) → parse_location raw ≡ some l → bytes_eq raw heading ≡ false
not_heading raw l e = elim (Bool-cases (bytes_eq raw heading)) [
  | inl t ↦
      let same : raw ≡ heading = (bytes_eq_iff raw heading).0 t in
      let both : some l ≡ none = sym e ∙ ap parse_location same ∙ heading-none in cc
  | inr f ↦ f
]

-- what stands behind `in` in a suffix
abbrev function_of : Option (List ℕ) → Option (List ℕ)
function_of none = none
function_of (some rest) = strip_prefix (codes "in ") rest

parse_frame-located :
    (line raw : List ℕ) (l : Location)
    → trim line ≡ raw
    → starts_dark raw ≡ true
    → parse_location raw ≡ some l
    → parse_frame line
      ≡ (record {
        source = l.source;
        line = some l.line;
        function = function_of (behind_colon l.suffix);
        raw = raw;
      })
        ∷ []
unfolding parse_frame
parse_frame-located line raw l t dark e =
    rw (t, dark_nonempty raw dark, not_heading raw l e, e) (rw t refl)

heading_suffix : strip_suffix (codes ": in ?") heading ≡ none
unfolding strip_suffix strip_prefix
heading_suffix = refl

not_heading_native : (chunk : List ℕ) → bytes_eq (chunk ++ codes ": in ?") heading ≡ false
not_heading_native chunk = elim (Bool-cases (bytes_eq (chunk ++ codes ": in ?") heading)) [
  | inl t ↦
      let same : chunk ++ codes ": in ?" ≡ heading =
        (bytes_eq_iff (chunk ++ codes ": in ?") heading).0 t in
      let both : some chunk ≡ none =
        sym (strip_suffix-append chunk (codes ": in ?"))
        ∙ ap (strip_suffix (codes ": in ?")) same
        ∙ heading_suffix in
      cc
  | inr f ↦ f
]

native-none :
    (chunk : List ℕ) → is_path chunk ≡ true → parse_location (chunk ++ codes ": in ?") ≡ none
unfolding parse_location is_path
native-none chunk h =
    locate-none [] (chunk ++ codes ": in ?") (is_path-append chunk (codes " in ?") h refl)

parse_frame-native :
    (line chunk : List ℕ)
    → trim line ≡ chunk ++ codes ": in ?"
    → starts_dark chunk ≡ true
    → is_path chunk ≡ true
    → parse_frame line
      ≡ (record {
        source = chunk;
        line = none;
        function = some (codes "?");
        raw = chunk ++ codes ": in ?";
      })
        ∷ []
unfolding parse_frame
parse_frame-native line chunk t dark path =
    let nonempty : is_empty (trim line) ≡ false =
      ap is_empty t
      ∙ dark_nonempty (chunk ++ codes ": in ?") (starts_dark-append chunk (codes ": in ?") dark) in
    let other : bytes_eq (trim line) heading ≡ false =
      ap (λ cs. bytes_eq cs heading) t ∙ not_heading_native chunk in
    let nowhere : parse_location (trim line) ≡ none =
      ap parse_location t ∙ native-none chunk path in
    let stripped : strip_suffix (codes ": in ?") (trim line) ≡ some chunk =
      ap (strip_suffix (codes ": in ?")) t ∙ strip_suffix-append chunk (codes ": in ?") in
    rw (nonempty, other, nowhere, stripped) (rw t refl)

pub behind_colon-space :
    (cs : List ℕ)
    → starts_dark cs ≡ true
    → ends_dark cs ≡ true
    → behind_colon (codes ": " ++ cs) ≡ some cs
unfolding strip_prefix
behind_colon-space cs h k = ap (λ (s : List ℕ). some s) (trim-space cs h k)

-- A line with a tab and a frame is read as that frame.
pub parse_frame-print :
    (f : PrintedFrame) → IsFrame f → parse_frame (b'\t' ∷ print_frame f) ≡ frame_of f ∷ []
parse_frame-print (lua_function path line function) (name, small, inline) =
    let suffix = codes ": in " ++ function in
    let raw = print_location path line suffix in
    let whole = print_frame-IsInline (lua_function path line function) (name, small, inline) in
    let inner = function-IsInline function inline in
    let read =
      parse_frame-located (b'\t' ∷ raw) raw _ (trim-tab raw whole) whole.start
        (parse_location-print path line suffix name small refl) in
    let named : function_of (behind_colon suffix) ≡ some function =
      ap function_of (behind_colon-space (codes "in " ++ function) inner.start inner.end)
      ∙ strip_prefix-append (codes "in ") function in
    read
    ∙ ap
        (λ (o : Option (List ℕ)).
          (record { source = path; line = some line; function = o; raw = raw }) ∷ [])
        named
parse_frame-print (native chunk) name =
    parse_frame-native (b'\t' ∷ print_frame (native chunk)) chunk
      (trim-tab (print_frame (native chunk)) (native-IsInline chunk name.inline)) name.inline.start
      name.path
