-- ===== src/Vfs/SetFile.antt =====
-- crates/rua-ide/src/analysis/vfs/mod.rs: what `set_file_with_path` sets.
use rua_lang.Base.{
  ℕ, suc, ◌^◌, ◌-◌, ◌<◌, ◌≡◌, refl, ◌∙◌, ap, inl, inr, true, false, List, Option, none, some,
  option-both, ok, ◌>>=◌, Returns, Returns-bind, ◌==◌, ==_iff, leb, Bool-cases, arith,
}
use rua_lang.Lex.Keywords.{bytes_eq_iff}
use rua_lang.Vfs.{
  Vfs, FileKind, SourceRoot, put, erase, set_insert, bump_file_revision, same_text, set_file_text,
  remove_file_path, add_file_path, leave_root, leave_previous, enter_root, set_file_with_path,
}
use rua_lang.Vfs.Index.{holds_root, holds_root-put, has-set_insert}
use rua_lang.Vfs.Keeps.{remove_file_path-both}

abbrev pub max_revision : ℕ
max_revision = 2 ^ 64 - 1

put-here : {V : Type 0} (m : ℕ → Option V) (f : ℕ) (x : V) → put m f x f ≡ some x
unfolding put
put-here m f x = let here : (f == f) ≡ true = (==_iff f f).1 refl in rw here refl

put-elsewhere :
    {V : Type 0} (m : ℕ → Option V) (f g : ℕ) (x : V) → (g == f) ≡ false → put m f x g ≡ m g
unfolding put
put-elsewhere m f g x n = rw n refl

erase-here : {V : Type 0} (m : ℕ → Option V) (f : ℕ) → erase m f f ≡ none
unfolding erase
erase-here m f = let here : (f == f) ≡ true = (==_iff f f).1 refl in rw here refl

-- What is set of a file.
pub record HasFile (v : Vfs) (f root : ℕ) (kind : FileKind) (path : Option (List ℕ)) (text : List ℕ)
    : Type 0 where
  pub text_set : v.file_texts f ≡ some text
  pub kind_set : v.file_kinds f ≡ some kind
  pub root_set : v.file_roots f ≡ some root
  pub listed : holds_root v.source_roots root f ≡ true
  pub path_set : v.file_paths f ≡ path

bump-Returns :
    (P : Vfs → Type 0) (v : Vfs) (f : ℕ)
    → v.next_revision < max_revision
    → P (record v {
      next_revision = suc v.next_revision;
      file_revisions = put v.file_revisions f (suc v.next_revision);
    })
    → Returns (bump_file_revision v f) P
unfolding bump_file_revision
bump-Returns P v f h p =
    let fits : leb (suc v.next_revision) (2 ^ 64 - 1) ≡ true = ground (arith, h) in
    rw fits (_, refl, p)

abbrev TextSet : Vfs → ℕ → List ℕ → Vfs → Type 0
TextSet v f text v' = (v'.file_texts f ≡ some text) × (v'.source_roots ≡ v.source_roots)

same_text-some : (o : Option (List ℕ)) (text : List ℕ) → same_text o text ≡ true → o ≡ some text
same_text-some none text h = cc
same_text-some (some old) text h = ap (λ (t : List ℕ). some t) ((bytes_eq_iff old text).0 h)

set_file_text-Returns :
    (v : Vfs) (f : ℕ) (text : List ℕ)
    → v.next_revision < max_revision
    → Returns (set_file_text v f text) (TextSet v f text)
unfolding set_file_text
set_file_text-Returns v f text h = elim (Bool-cases (same_text (v.file_texts f) text)) [
  | inl t ↦ rw t (v, refl, (same_text-some (v.file_texts f) text t, refl))
  | inr n ↦ rw n (bump-Returns (TextSet v f text) _ f h (put-here v.file_texts f text, refl))
]

remove_file_path-none : (v : Vfs) (f : ℕ) → (remove_file_path v f).file_paths f ≡ none
unfolding remove_file_path
remove_file_path-none v f =
    option-both (λ (w : Vfs). w.file_paths f ≡ none) (v.file_paths f) (λ e. e)
      (λ p _. erase-here v.file_paths f)

leave_root-elsewhere :
    (roots : ℕ → Option SourceRoot) (p f root : ℕ)
    → (root == p) ≡ false
    → leave_root roots p f root ≡ roots root
unfolding leave_root
leave_root-elsewhere roots p f root n =
    option-both (λ (m : ℕ → Option SourceRoot). m root ≡ roots root) (roots p) (λ _. refl)
      (λ r _. put-elsewhere roots p root _ n)

leave_previous-root :
    (roots : ℕ → Option SourceRoot) (o : Option ℕ) (f root : ℕ)
    → leave_previous roots o root f root ≡ roots root
unfolding leave_previous
leave_previous-root roots none f root = refl
leave_previous-root roots (some p) f root = elim (Bool-cases (p == root)) [
  | inl t ↦ rw t refl
  | inr n ↦ rw n (leave_root-elsewhere roots p f root (ground (arith, n)))
]

-- what is set before the file enters its root
abbrev BeforeEntry : Vfs → ℕ → FileKind → Option (List ℕ) → List ℕ → SourceRoot → ℕ → Type 0
BeforeEntry v f kind path text r root =
    (v.file_texts f ≡ some text)
    × (v.file_kinds f ≡ some kind)
    × (v.file_paths f ≡ path)
    × (v.source_roots root ≡ some r)

enter_root-ok :
    (v : Vfs) (root f : ℕ) (r : SourceRoot)
    → leave_previous v.source_roots (v.file_roots f) root f root ≡ some r
    → enter_root v root f
      ≡ ok (record v {
        file_roots = put v.file_roots f root;
        source_roots =
            put
              (leave_previous v.source_roots (v.file_roots f) root f)
              root
              (record r { files = set_insert f r.files });
      })
unfolding enter_root
enter_root-ok v root f r e = rw (enter_root, e) refl

entered :
    (roots : ℕ → Option SourceRoot) (root f : ℕ) (r : SourceRoot)
    → holds_root (put roots root (record r { files = set_insert f r.files })) root f ≡ true
entered roots root f r =
    let here : (root == root) ≡ true = (==_iff root root).1 refl in
    let self : (f == f) ≡ true = (==_iff f f).1 refl in
    holds_root-put roots root (record r { files = set_insert f r.files }) root f
    ∙ rw here (has-set_insert f r.files f ∙ rw self (ground arith))

enter_root-HasFile :
    (v : Vfs) (root f : ℕ) (kind : FileKind) (path : Option (List ℕ)) (text : List ℕ)
    (r : SourceRoot)
    → BeforeEntry v f kind path text r root
    → Returns (enter_root v root f) (λ v'. HasFile v' f root kind path text)
enter_root-HasFile v root f kind path text r (t, k, p, e) =
    let roots = leave_previous v.source_roots (v.file_roots f) root f in
    let there : roots root ≡ some r =
      leave_previous-root v.source_roots (v.file_roots f) f root ∙ e in
    (
      _,
      enter_root-ok v root f r there,
      record {
        text_set = t;
        kind_set = k;
        root_set = put-here v.file_roots f root;
        listed = entered roots root f r;
        path_set = p;
      },
    )

add_file_path-Before :
    (v : Vfs) (f root : ℕ) (kind : FileKind) (path : Option (List ℕ)) (text : List ℕ)
    (r : SourceRoot)
    → (v.file_texts f ≡ some text) × (v.file_kinds f ≡ some kind) × (v.source_roots root ≡ some r)
    → v.file_paths f ≡ none
    → BeforeEntry (add_file_path v f path) f kind path text r root
unfolding add_file_path
add_file_path-Before v f root kind none text r (t, k, e) p = (t, k, p, e)
add_file_path-Before v f root kind (some path) text r (t, k, e) p =
    (t, k, put-here v.file_paths f path, e)

set_file_with_path-known :
    (v : Vfs) (f root : ℕ) (kind : FileKind) (path : Option (List ℕ)) (text : List ℕ)
    (r : SourceRoot)
    → v.source_roots root ≡ some r
    → set_file_with_path v f root kind path text ≡ (
        set_file_text v f text >>= λ v'.
        enter_root
          (add_file_path
            (remove_file_path (record v' { file_kinds = put v'.file_kinds f kind }) f)
            f
            path)
          root
          f)
unfolding set_file_with_path
set_file_with_path-known v f root kind path text r e = rw (set_file_with_path, e) refl

-- For every store with revisions left and every source root that it knows, `set_file_with_path` returns.
-- Then the file has the given text, kind, root and path, or no path if none is given, and it is one of
-- the root's files.
pub set_file_with_path-HasFile :
    (v : Vfs) (f root : ℕ) (kind : FileKind) (path : Option (List ℕ)) (text : List ℕ)
    (r : SourceRoot)
    → v.source_roots root ≡ some r
    → v.next_revision < max_revision
    → Returns (set_file_with_path v f root kind path text) (λ v'. HasFile v' f root kind path text)
set_file_with_path-HasFile v f root kind path text r e h =
    rw (set_file_with_path-known v f root kind path text r e) (
      Returns-bind {P = TextSet v f text} (set_file_text v f text) _
        (set_file_text-Returns v f text h)
        (λ v' (t, roots).
          let kinded : Vfs = record v' { file_kinds = put v'.file_kinds f kind } in
          let cleared = remove_file_path kinded f in
          let known : v'.source_roots root ≡ some r = ap (λ m. m root) roots ∙ e in
          let kept : (cleared.file_texts f ≡ some text)
              × (cleared.file_kinds f ≡ some kind)
              × (cleared.source_roots root ≡ some r) =
            remove_file_path-both
              (λ w.
                (w.file_texts f ≡ some text)
                × (w.file_kinds f ≡ some kind)
                × (w.source_roots root ≡ some r))
              kinded f (t, put-here v'.file_kinds f kind, known)
              (λ _ _. (t, put-here v'.file_kinds f kind, known)) in
          enter_root-HasFile (add_file_path cleared f path) root f kind path text r (
            add_file_path-Before cleared f root kind path text r kept
              (remove_file_path-none kinded f))))
