-- ===== src/LineIndex/Content.antt =====
-- crates/rua-ide/src/syntax/line_index.rs: where the content of a line ends.
use std.Path.{ap}
use mathlib.Core.Bool.{false≢true}
use rua_lang.Base.{
  ℕ, suc, ◌+◌, ◌-◌, ◌≤◌, ◌<◌, ◌≡◌, refl, sym, ◌∙◌, inl, inr, Bool, true, false, ◌&&◌, List, Option,
  none, some, ok, ◌>>=◌, ◌==◌, ltb, if◌then◌else◌, Bool-cases, Returns, and_true, length, get_elem?,
  get_elem?-of_lt, take, ltb→lt, ltb→le, arith,
}
use rua_lang.Lex.Bytes.{is_at, is_char_boundary, IsUtf8, boundary_ascii, boundary_end}
use rua_lang.LineIndex.{at_index, LineIndex, new, end_of, ends_in, line_content_end}
use rua_lang.Newlines.{newlines}
use rua_lang.Newlines.Count.{newlines-take_mono}
use rua_lang.LineIndex.Row.{at_index-ok, starts, at-suc, starts-Starts, byte-is_at, no_break}

-- The row's line ends at or behind the offset, and its break too.
record Ends (text : List ℕ) (start off end : ℕ) : Type 0 where
  within : end ≤ length text
  behind : off ≤ end
  before_break : start < end → is_at text (end - 1) b'\n' ≡ true → off < end
  boundary : IsUtf8 text → is_char_boundary text end ≡ true

-- the two cases of `end_of`
last-Ends :
    (text : List ℕ) (off start : ℕ)
    → newlines (take start text) ≡ newlines (take off text)
    → off ≤ length text
    → get_elem? (starts text) (newlines (take off text) + 1) ≡ none
    → Ends text start off (length text)
last-Ends text off start same h e = record {
  within = omega arith;
  behind = h;
  before_break = λ lt t. elim (Bool-cases (ltb off (length text))) [
    | inl y ↦ ltb→lt off (length text) y
    | inr n ↦ absurd (
        false≢true (
          sym (
            no_break text start off (length text - 1) same (omega arith)
              (omega (arith, ltb→le off (length text) n)))
          ∙ t))
  ];
  boundary = λ u. boundary_end text (length text) refl;
}

next-Ends :
    (text : List ℕ) (off start next : ℕ)
    → get_elem? (starts text) (newlines (take off text) + 1) ≡ some next
    → Ends text start off next
next-Ends text off start next e =
    let row = newlines (take off text) in
    let s = starts-Starts text (suc row) next (sym (at-suc text row) ∙ e) in
    let over : off < next = elim (Bool-cases (ltb off next)) [
      | inl y ↦ ltb→lt off next y
      | inr n ↦
          absurd (omega (arith, s.count, newlines-take_mono text next off (ltb→le off next n)))
    ] in
    record {
      within = s.within;
      behind = omega (arith, over);
      before_break = λ lt t. over;
      boundary = s.boundary;
    }

end_of-Ends :
    (text : List ℕ) (off start : ℕ)
    → newlines (take start text) ≡ newlines (take off text)
    → off ≤ length text
    → Ends text start off (end_of (new text) (newlines (take off text)))
unfolding new
end_of-Ends text off start same h =
    by_next (get_elem? (starts text) (newlines (take off text) + 1)) refl
  where
    by_next :
        (next : Option ℕ)
        → get_elem? (starts text) (newlines (take off text) + 1) ≡ next
        → Ends text start off (elim next [ none ↦ length text | some e ↦ e ])
    by_next none e = last-Ends text off start same h e
    by_next (some next) e = next-Ends text off start next e

-- The offset stands inside a two byte line break.
abbrev pub in_break : List ℕ → ℕ → Bool
in_break text off = is_at text off b'\n' && is_at text (off - 1) b'\r'

pub record Content (text : List ℕ) (off end : ℕ) : Type 0 where
  pub behind : off ≤ end
  pub boundary : IsUtf8 text → is_char_boundary text end ≡ true

-- the end that `line_content_end` computes from the end of the line
trim_end : List ℕ → ℕ → ℕ → ℕ
trim_end text start end =
    if ltb start end && is_at text (end - 1) b'\n'
    then (if ltb start (end - 1) && is_at text (end - 1 - 1) b'\r' then end - 1 - 1 else end - 1)
    else end

-- An offset of the content that is not inside the break `\r\n` is not behind it either.
before_return :
    (text : List ℕ) (off end : ℕ)
    → off < end
    → in_break text off ≡ false
    → is_at text (end - 1) b'\n' ≡ true
    → is_at text (end - 1 - 1) b'\r' ≡ true
    → off ≤ end - 1 - 1
before_return text off end h out lf cr = elim (Bool-cases (ltb off (end - 1))) [
  | inl y ↦ omega (arith, ltb→lt off (end - 1) y)
  | inr n ↦
      let here : off ≡ end - 1 = omega (arith, ltb→le off (end - 1) n) in
      let inside : in_break text off ≡ true =
        (and_true (is_at text off b'\n') (is_at text (off - 1) b'\r')).1
          (ap (λ k. is_at text k b'\n') here ∙ lf, ap (λ k. is_at text (k - 1) b'\r') here ∙ cr) in
      absurd (false≢true (sym out ∙ inside))
]

at_index-is_at :
    (text : List ℕ) (i c b : ℕ)
    → get_elem? text i ≡ some b
    → (at_index text i >>= λ b. ok (b == c)) ≡ ok (is_at text i c)
at_index-is_at text i c b e = ground (arith, e)

-- In the text the test of a byte does not panic.
ends_in-ok :
    (text : List ℕ) (start e c : ℕ)
    → e ≤ length text
    → ends_in text start e c ≡ ok (ltb start e && is_at text (e - 1) c)
unfolding ends_in
ends_in-ok text start e c h = elim (Bool-cases (ltb start e)) [
  | inl t ↦
      let (b, at) = get_elem?-of_lt text (e - 1) (omega (arith, ltb→lt start e t)) in
      rw t (at_index-is_at text (e - 1) c b at)
  | inr f ↦ rw f refl
]

line_content_end-trim_end :
    (index : LineIndex) (row start : ℕ) (text : List ℕ)
    → get_elem? index.line_starts row ≡ some start
    → end_of index row ≤ length text
    → line_content_end index row text ≡ ok (trim_end text start (end_of index row))
unfolding line_content_end trim_end
line_content_end-trim_end index row start text e h =
    let first = ends_in-ok text start (end_of index row) b'\n' h in
    let second = ends_in-ok text start (end_of index row - 1) b'\r' (omega (arith, h)) in
    rw (at_index-ok index.line_starts row e, first)
      (elim (Bool-cases (ltb start (end_of index row) && is_at text (end_of index row - 1) b'\n')) [
        | inl t ↦ rw (t, second) refl
        | inr f ↦ rw f refl
      ])

trim_end-Content :
    (text : List ℕ) (off start end : ℕ)
    → start ≤ off
    → Ends text start off end
    → in_break text off ≡ false
    → Content text off (trim_end text start end)
unfolding trim_end
trim_end-Content text off start end le s out =
    elim (Bool-cases (ltb start end && is_at text (end - 1) b'\n')) [
      | inr f ↦ rw f (record { behind = s.behind; boundary = s.boundary })
      | inl t ↦
          let (lt, lf) = (and_true (ltb start end) (is_at text (end - 1) b'\n')).0 t in
          let before = s.before_break (ltb→lt start end lt) lf in
          elim (Bool-cases (ltb start (end - 1) && is_at text (end - 1 - 1) b'\r')) [
            | inr f ↦
                rw (t, f)
                  (record {
                    behind = omega (arith, before);
                    boundary = λ u.
                        boundary_ascii text (end - 1) (byte-is_at text (end - 1) b'\n' lf)
                          (omega arith);
                  })
            | inl t' ↦
                let (lt', cr) =
                  (and_true (ltb start (end - 1)) (is_at text (end - 1 - 1) b'\r')).0 t' in
                rw (t, t')
                  (record {
                    behind = before_return text off end before out lf cr;
                    boundary = λ u.
                        boundary_ascii text (end - 1 - 1) (byte-is_at text (end - 1 - 1) b'\r' cr)
                          (omega arith);
                  })
          ]
    ]

-- `line_content_end` returns an end that no offset of the line is behind, one inside its break apart.
pub line_content_end-Content :
    (text : List ℕ) (off start : ℕ)
    → get_elem? (starts text) (newlines (take off text)) ≡ some start
    → newlines (take start text) ≡ newlines (take off text)
    → start ≤ off
    → off ≤ length text
    → in_break text off ≡ false
    → Returns (line_content_end (new text) (newlines (take off text)) text) (Content text off)
line_content_end-Content text off start e same le h out =
    let row = newlines (take off text) in
    let s = end_of-Ends text off start same h in
    (
      trim_end text start (end_of (new text) row),
      line_content_end-trim_end (new text) row start text (unfold new in e) s.within,
      trim_end-Content text off start _ le s out,
    )
