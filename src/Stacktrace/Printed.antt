-- ===== src/Stacktrace/Printed.antt =====
-- crates/ruac/src/stacktrace.rs: tracebacks in the form in which Lua prints them.
use rua_lang.Base.{ℕ, ◌≤◌, ◌≡◌, true, List, [], ◌∷◌, ◌++◌, All, codes}
use rua_lang.Stacktrace.Location.{is_path}
use rua_lang.Text.{display, usize_max}
use rua_lang.Text.Lines.{no_break}
use rua_lang.Text.Trim.{starts_dark, ends_dark}

-- A frame of a Lua function, or of a native one, such as `[C]`.
pub data PrintedFrame : Type 0 where
  lua_function : (path : List ℕ) (line : ℕ) (function : List ℕ) → PrintedFrame
  native : (chunk : List ℕ) → PrintedFrame

-- An error at a line of a path, and the frames of its stack.
pub record PrintedTraceback : Type 0 where
  pub path : List ℕ
  pub line : ℕ
  pub message : List ℕ
  pub frames : List PrintedFrame

abbrev pub print_location : List ℕ → ℕ → List ℕ → List ℕ
print_location path line suffix = path ++ b':' ∷ (display line ++ suffix)

abbrev pub print_frame : PrintedFrame → List ℕ
print_frame (lua_function path line function) = print_location path line (codes ": in " ++ function)
print_frame (native chunk) = chunk ++ codes ": in ?"

abbrev pub print_frames : List PrintedFrame → List ℕ
print_frames [] = []
print_frames (f ∷ fs) = (b'\t' ∷ print_frame f) ++ b'\n' ∷ print_frames fs

abbrev pub print_error : PrintedTraceback → List ℕ
print_error t = codes "lua: " ++ print_location t.path t.line (codes ": " ++ t.message)

abbrev pub print_traceback : PrintedTraceback → List ℕ
print_traceback t =
    print_error t ++ b'\n' ∷ (codes "stack traceback:" ++ b'\n' ∷ print_frames t.frames)

-- A text on one line that no blank borders.
pub record IsInline (cs : List ℕ) : Type 0 where
  pub start : starts_dark cs ≡ true
  pub end : ends_dark cs ≡ true
  pub one_line : no_break cs ≡ true

-- Such a text in which no colon stands in front of a digit.
pub record IsChunkName (cs : List ℕ) : Type 0 where
  pub inline : IsInline cs
  pub path : is_path cs ≡ true

abbrev pub IsFrame : PrintedFrame → Type 0
IsFrame (lua_function path line function) =
    IsChunkName path × (line ≤ usize_max) × IsInline function
IsFrame (native chunk) = IsChunkName chunk

pub record IsTraceback (t : PrintedTraceback) : Type 0 where
  pub path : IsChunkName t.path
  pub line : t.line ≤ usize_max
  pub message : IsInline t.message
  pub frames : All IsFrame t.frames
