-- ===== src/Doc/Content.antt =====
-- crates/rua-ide/src/syntax/format/doc.rs: the text of a document, without blanks and line breaks.
use mathlib.Core.List.{reverse, reverse-append, reverse-reverse}
use mathlib.Core.Path.{◌≡⟨◌⟩◌, ◌∎}
use rua_lang.Base.{
  ℕ, zero, suc, ◌≡◌, refl, sym, ◌∙◌, ap, ◌⊎◌, inl, inr, Bool, true, false, ◌&&◌, ◌||◌, List, [],
  ◌∷◌, ◌++◌, append_assoc, ◌==◌, if◌then◌else◌, Bool-cases, and_true, replicate, arith,
}
use rua_lang.Doc.{
  Doc, text, concat, indent, group, if_break, line_suffix, Docs, none_left, and_then, Mode,
}
use rua_lang.Doc.Printer.{
  Cmd, cmd, push_all, push_str, State, flush_suffixes, trim_trailing_spaces, new_line,
}

-- The characters that are no layout: all but blanks and line breaks.
unfoldable pub visible : List ℕ → List ℕ
visible [] = []
visible (c ∷ cs) = if c == b' ' || c == b'\n' then visible cs else c ∷ visible cs

-- The documents without a line suffix.
unfoldable mutual
  pub no_suffix : Doc → Bool
  no_suffix (concat ds) = none_suffix ds
  no_suffix (indent d) = no_suffix d
  no_suffix (group d) = no_suffix d
  no_suffix (if_break b f) = no_suffix b && no_suffix f
  no_suffix (line_suffix s) = false
  no_suffix _ = true

  pub none_suffix : Docs → Bool
  none_suffix none_left = true
  none_suffix (and_then d ds) = no_suffix d && none_suffix ds

-- `cs` is the visible text of a document in order, with one branch of each `if_break`.
unfoldable mutual
  pub Content : Doc → List ℕ → Type 0
  Content (text s) cs = cs ≡ visible s
  Content (concat ds) cs = Contents ds cs
  Content (indent d) cs = Content d cs
  Content (group d) cs = Content d cs
  Content (if_break b f) cs = Content b cs ⊎ Content f cs
  Content _ cs = cs ≡ []

  pub Contents : Docs → List ℕ → Type 0
  Contents none_left cs = cs ≡ []
  Contents (and_then d ds) cs =
      (a : List ℕ) × (b : List ℕ) × Content d a × Contents ds b × (cs ≡ a ++ b)

unfoldable pub StackContent : List Cmd → List ℕ → Type 0
StackContent [] cs = cs ≡ []
StackContent (c ∷ cmds) cs =
    (a : List ℕ) × (b : List ℕ) × Content c.doc a × StackContent cmds b × (cs ≡ a ++ b)

unfoldable pub stack_no_suffix : List Cmd → Bool
stack_no_suffix [] = true
stack_no_suffix (c ∷ cmds) = no_suffix c.doc && stack_no_suffix cmds

pub visible-append : (xs ys : List ℕ) → visible (xs ++ ys) ≡ visible xs ++ visible ys
unfolding visible
visible-append [] ys = refl
visible-append (x ∷ xs) ys = ground (arith, visible-append xs ys)

pub visible-reverse : (xs : List ℕ) → visible (reverse xs) ≡ reverse (visible xs)
unfolding visible
visible-reverse [] = refl
visible-reverse (x ∷ xs) =
    visible (reverse (x ∷ xs))
    ≡⟨ ap visible (reverse-append (x ∷ []) xs) ⟩ visible (reverse xs ++ x ∷ [])
    ≡⟨ visible-append (reverse xs) (x ∷ []) ⟩ visible (reverse xs) ++ visible (x ∷ [])
    ≡⟨ ap (λ ys. ys ++ visible (x ∷ [])) (visible-reverse xs) ⟩
      reverse (visible xs) ++ visible (x ∷ [])
    ≡⟨ ap (λ ys. reverse (visible xs) ++ ys) (one x) ⟩
      reverse (visible xs) ++ reverse (visible (x ∷ []))
    ≡⟨ sym (reverse-append (visible (x ∷ [])) (visible xs)) ⟩
      reverse (visible (x ∷ []) ++ visible xs)
    ≡⟨ ap reverse (sym (visible-append (x ∷ []) xs)) ⟩ reverse (visible (x ∷ xs)) ∎
  where
    one : (c : ℕ) → visible (c ∷ []) ≡ reverse (visible (c ∷ []))
    one c = elim (Bool-cases (c == b' ' || c == b'\n')) [
      | inl t ↦ rw (t, visible)
      | inr f ↦ rw (f, visible)
    ]

visible-replicate : (n : ℕ) → visible (replicate n b' ') ≡ []
unfolding visible
visible-replicate zero = refl
visible-replicate (suc n) = visible-replicate n

pub visible-trim : (out : List ℕ) → visible (trim_trailing_spaces out) ≡ visible out
unfolding visible trim_trailing_spaces
visible-trim [] = refl
visible-trim (c ∷ out) = ground (arith, visible-trim out)

-- What the output shows, which is kept last character first.
unfoldable pub shown : List ℕ → List ℕ
shown out = reverse (visible out)

pub shown-push_str : (out s : List ℕ) → shown (push_str out s) ≡ shown out ++ visible s
unfolding shown
shown-push_str out s =
    reverse (visible (reverse s ++ out))
    ≡⟨ ap reverse (visible-append (reverse s) out) ⟩ reverse (visible (reverse s) ++ visible out)
    ≡⟨ reverse-append (visible (reverse s)) (visible out) ⟩
      shown out ++ reverse (visible (reverse s))
    ≡⟨ ap (λ ys. shown out ++ reverse ys) (visible-reverse s) ⟩
      shown out ++ reverse (reverse (visible s))
    ≡⟨ ap (λ ys. shown out ++ ys) (reverse-reverse (visible s)) ⟩ shown out ++ visible s ∎

pub shown-new_line :
    (ind : ℕ) (s : State) → s.suffixes ≡ [] → shown (new_line ind s).out ≡ shown s.out
unfolding shown new_line flush_suffixes visible
shown-new_line ind s e =
    let blank : visible (replicate ind b' ' ++ b'\n' ∷ trim_trailing_spaces s.out) ≡ visible s.out =
      visible-append (replicate ind b' ') (b'\n' ∷ trim_trailing_spaces s.out)
      ∙ rw (visible-replicate ind) (visible-trim s.out) in
    rw e (ap reverse blank)

pub Contents-push_all :
    (ind : ℕ) (mode : Mode) (ds : Docs) (stack : List Cmd) (cs : List ℕ)
    → StackContent (push_all ind mode ds stack) cs
    → (a : List ℕ) × (b : List ℕ) × Contents ds a × StackContent stack b × (cs ≡ a ++ b)
unfolding push_all StackContent Content
Contents-push_all ind mode none_left stack cs h = ([], cs, refl, h, refl)
Contents-push_all ind mode (and_then d ds) stack cs (a, b, h, more, e) =
    let (a', b', h', rest, e') = Contents-push_all ind mode ds stack b more in
    (
      a ++ a',
      b',
      (a, a', h, h', refl),
      rest,
      e ∙ ap (λ ys. a ++ ys) e' ∙ sym (append_assoc a a' b'),
    )

pub stack_no_suffix-push_all :
    (ind : ℕ) (mode : Mode) (ds : Docs) (stack : List Cmd)
    → (none_suffix ds && stack_no_suffix stack) ≡ true
    → stack_no_suffix (push_all ind mode ds stack) ≡ true
unfolding stack_no_suffix push_all no_suffix
stack_no_suffix-push_all ind mode none_left stack h = h
stack_no_suffix-push_all ind mode (and_then d ds) stack h =
    let (both, rest) = (and_true (no_suffix d && none_suffix ds) (stack_no_suffix stack)).0 h in
    let (first, later) = (and_true (no_suffix d) (none_suffix ds)).0 both in
    (and_true (no_suffix d) _).1
      (first, stack_no_suffix-push_all ind mode ds stack ((and_true _ _).1 (later, rest)))

-- What is shown and what the stack may still show is a content of the document.
module _ (doc : Doc) where
  pub record Inv (s : State) : Type 0 where
    pub plain : stack_no_suffix s.cmds ≡ true
    pub no_suffixes : s.suffixes ≡ []
    pub promise : (cs : List ℕ) → StackContent s.cmds cs → Content doc (shown s.out ++ cs)

  -- How a command's content is split between what is shown at once and what is left.
  abbrev pub Split : Cmd → State → State → Type 0
  Split c s s' =
      (cs : List ℕ)
      → StackContent s'.cmds cs
      → (a : List ℕ) × (b : List ℕ) × Content c.doc a
        × StackContent s.cmds b
        × (shown s'.out ++ cs ≡ shown s.out ++ (a ++ b))

  pub Inv-next :
      (c : Cmd) (s s' : State)
      → Inv (record s { cmds = c ∷ s.cmds })
      → stack_no_suffix s'.cmds ≡ true
      → s'.suffixes ≡ []
      → Split c s s'
      → Inv s'
  unfolding StackContent
  Inv-next c s s' i plain none split = record {
    plain = plain;
    no_suffixes = none;
    promise = λ cs h.
        let (a, b, ha, hb, e) = split cs h in rw e (i.promise (a ++ b) (a, b, ha, hb, refl));
  }

  -- A command with no text, that leaves the shown text and the stack alone.
  pub silent :
      (c : Cmd) (s s' : State)
      → Inv (record s { cmds = c ∷ s.cmds })
      → Content c.doc []
      → s'.cmds ≡ s.cmds
      → s'.suffixes ≡ []
      → shown s'.out ≡ shown s.out
      → Inv s'
  unfolding stack_no_suffix
  silent c s s' i empty same suffixes out =
      Inv-next c s s' i (rw same ((and_true (no_suffix c.doc) _).0 i.plain).1) suffixes
        (λ cs h. ([], cs, empty, rw same at h, ap (λ ys. ys ++ cs) out))

  -- A command that leaves another in its place, whose contents are contents of it.
  pub replaced :
      (c : Cmd) (s : State) (ind : ℕ) (mode : Mode) (d : Doc)
      → Inv (record s { cmds = c ∷ s.cmds })
      → no_suffix d ≡ true
      → ((a : List ℕ) → Content d a → Content c.doc a)
      → Inv (record s { cmds = cmd ind mode d ∷ s.cmds })
  unfolding StackContent stack_no_suffix
  replaced c s ind mode d i plain inside =
      Inv-next c s _ i
        ((and_true (no_suffix d) _).1 (plain, ((and_true (no_suffix c.doc) _).0 i.plain).1))
        i.no_suffixes (λ cs h. (h.0, h.1, inside h.0 h.2, h.3, ap (λ ys. shown s.out ++ ys) h.4))
