-- ===== src/Stacktrace/ParsePrinted.antt =====
-- crates/ruac/src/stacktrace.rs: the parser reads back the tracebacks that Lua prints.
use rua_lang.Base.{ℕ, ◌≡◌, refl, ◌∙◌, ap, true, List, [], ◌∷◌, ◌++◌, map, none, some, All, codes}
use rua_lang.Lex.Kind.{bytes_eq}
use rua_lang.Stacktrace.Parse.{
  LuaStackFrame, Location, parse_location, behind_colon, unwrap_or, parse_first, parse_frame,
  parse_frames, parse_lines, parse_lua_traceback,
}
use rua_lang.Stacktrace.Printed.{
  PrintedFrame, PrintedTraceback, print_location, print_frame, print_frames, print_error,
  print_traceback, IsInline, IsFrame, IsTraceback,
}
use rua_lang.Text.{is_whitespace, trim_start, trim, strip_prefix, lines}
use rua_lang.Text.Lines.{no_break, no_break-append, lines-line}
use rua_lang.Text.Trim.{ends_dark-append, trim-dark, strip_prefix-append}
use rua_lang.Stacktrace.PrintedLines.{
  parse_location-print, trim-space, print_location-IsInline, behind-IsInline, print_frame-IsInline,
}
use rua_lang.Stacktrace.ParseFrame.{frame_of, heading, behind_colon-space, parse_frame-print}

-- the frame of the error itself
abbrev pub error_frame : PrintedTraceback → LuaStackFrame
error_frame t = record { source = t.path; line = some t.line; function = none; raw = print_error t }

parse_frames-print :
    (fs : List PrintedFrame)
    → All IsFrame fs
    → parse_frames (lines (print_frames fs)) ≡ map frame_of fs
unfolding parse_frames
parse_frames-print [] all = unfold lines in refl
parse_frames-print (f ∷ fs) (first, rest) =
    let inline = print_frame-IsInline f first in
    let one_line : no_break (b'\t' ∷ print_frame f) ≡ true =
      no_break-append (b'\t' ∷ []) (print_frame f) (unfold no_break in refl) inline.one_line in
    ap parse_frames (lines-line (b'\t' ∷ print_frame f) (print_frames fs) one_line)
    ∙ ap (λ frames. frames ++ parse_frames (lines (print_frames fs))) (parse_frame-print f first)
    ∙ ap (λ frames. frame_of f ∷ frames) (parse_frames-print fs rest)

parse_frame-heading : parse_frame heading ≡ []
unfolding parse_frame is_whitespace bytes_eq trim trim_start
parse_frame-heading = refl

parse_first-located :
    (first rest : List ℕ) (l : Location)
    → strip_prefix (codes "lua:") first ≡ some rest
    → parse_location (trim rest) ≡ some l
    → parse_first first ≡ (
      unwrap_or (behind_colon l.suffix) [],
      (record { source = l.source; line = some l.line; function = none; raw = first }) ∷ [],
    )
unfolding parse_first
parse_first-located first rest l s e =
    let located : parse_location (trim (unwrap_or (strip_prefix (codes "lua:") first) first))
        ≡ some l =
      ap (λ o. parse_location (trim (unwrap_or o first))) s ∙ e in
    rw (located, parse_first) refl

module _ (t : PrintedTraceback) (printed : IsTraceback t) where
  abbrev location : List ℕ
  location = print_location t.path t.line (codes ": " ++ t.message)

  location-IsInline : IsInline location
  location-IsInline =
      let suffix = behind-IsInline t.message printed.message in
      print_location-IsInline t.path t.line (codes ": " ++ t.message) printed.path suffix.end
        suffix.one_line

  print_error-IsInline : IsInline (print_error t)
  unfolding is_whitespace no_break
  print_error-IsInline = record {
    start = refl;
    end = ends_dark-append (codes "lua: ") location location-IsInline.end;
    one_line = no_break-append (codes "lua: ") location refl location-IsInline.one_line;
  }

  parse_first-print : parse_first (print_error t) ≡ (t.message, error_frame t ∷ [])
  parse_first-print =
      let inline = location-IsInline in
      let read : parse_location (trim (b' ' ∷ location))
          ≡ some (record { source = t.path; line = t.line; suffix = codes ": " ++ t.message }) =
        ap parse_location (trim-space location inline.start inline.end)
        ∙ parse_location-print t.path t.line (codes ": " ++ t.message) printed.path printed.line
            refl in
      parse_first-located (print_error t) (b' ' ∷ location) _
        (strip_prefix-append (codes "lua:") (b' ' ∷ location)) read
      ∙ ap (λ o. (unwrap_or o [], error_frame t ∷ []))
          (behind_colon-space t.message printed.message.start printed.message.end)

  lines-print : lines (print_traceback t) ≡ print_error t ∷ heading ∷ lines (print_frames t.frames)
  lines-print =
      lines-line (print_error t) (heading ++ b'\n' ∷ print_frames t.frames)
        print_error-IsInline.one_line
      ∙ ap (λ behind. print_error t ∷ behind)
          (lines-line heading (print_frames t.frames) (unfold no_break in refl))

  parse_lines-print :
      parse_lines (print_error t ∷ heading ∷ lines (print_frames t.frames))
      ≡ record { message = t.message; frames = error_frame t ∷ map frame_of t.frames }
  unfolding parse_lines parse_frames
  parse_lines-print =
      let inline = print_error-IsInline in
      let first : parse_first (trim (print_error t)) ≡ (t.message, error_frame t ∷ []) =
        ap parse_first (trim-dark (print_error t) inline.start inline.end) ∙ parse_first-print in
      rw (first, parse_frame-heading, parse_frames-print t.frames printed.frames) refl

  pub parse_lua_traceback-print :
      parse_lua_traceback (print_traceback t)
      ≡ record { message = t.message; frames = error_frame t ∷ map frame_of t.frames }
  unfolding parse_lua_traceback
  parse_lua_traceback-print = ap parse_lines lines-print ∙ parse_lines-print
