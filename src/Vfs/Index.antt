-- ===== src/Vfs/Index.antt =====
-- crates/rua-ide/src/analysis/vfs/mod.rs: the changes of the index of paths and of the files of roots.
use rua_lang.Base.{
  ℕ, ◌≡◌, refl, sym, ◌∙◌, ap, inl, inr, Bool, false, not, ◌&&◌, ◌||◌, List, [], ◌∷◌, Option, none,
  some, Option-cases, ◌==◌, ==_iff, ltb, if◌then◌else◌, Bool-cases, arith,
}
use rua_lang.Flow.{has}
use rua_lang.Lex.Kind.{bytes_eq}
use rua_lang.Vfs.{
  SourceRoot, Map, PathMap, put, erase, set_insert, set_remove, leave_root, leave_previous,
}

-- the files of a path, and of a root
abbrev pub holds_path : PathMap (List ℕ) → List ℕ → ℕ → Bool
holds_path path_files path f = elim (path_files path) [ none ↦ false | some files ↦ has files f ]

abbrev pub holds_root : Map SourceRoot → ℕ → ℕ → Bool
holds_root roots root f = elim (roots root) [ none ↦ false | some r ↦ has r.files f ]

abbrev pub path_is : Option (List ℕ) → List ℕ → Bool
path_is none path = false
path_is (some p) path = bytes_eq p path

abbrev pub root_is : Option ℕ → ℕ → Bool
root_is none root = false
root_is (some r) root = r == root

pub has-set_remove :
    (f : ℕ) (fs : List ℕ) (g : ℕ) → has (set_remove f fs) g ≡ (has fs g && not (g == f))
unfolding has set_remove
has-set_remove f [] g = refl
has-set_remove f (x ∷ xs) g = elim (Bool-cases (x == f)) [
  | inl t ↦ rw t (has-set_remove f xs g ∙ ground arith)
  | inr n ↦ rw n (ground (arith, has-set_remove f xs g))
]

pub has-set_insert : (f : ℕ) (fs : List ℕ) (g : ℕ) → has (set_insert f fs) g ≡ (has fs g || g == f)
unfolding has set_insert
has-set_insert f [] g = ground arith
has-set_insert f (x ∷ xs) g = elim (Bool-cases (ltb f x)) [
  | inl t ↦ rw t (ground arith)
  | inr n ↦ rw n (elim (Bool-cases (f == x)) [
    | inl t ↦ rw t (ground arith)
    | inr k ↦ rw k (ground (arith, has-set_insert f xs g))
  ])
]

module _ (roots : Map SourceRoot) (root : ℕ) where
  pub holds_root-none : roots root ≡ none → (g : ℕ) → holds_root roots root g ≡ false
  holds_root-none e g = rw (holds_root, e) refl

  pub holds_root-some :
      (r : SourceRoot) → roots root ≡ some r → (g : ℕ) → holds_root roots root g ≡ has r.files g
  holds_root-some r e g = rw (holds_root, e) refl

  pub holds_root-put :
      (r : SourceRoot) (q g : ℕ)
      → holds_root (put roots root r) q g
        ≡ (if q == root then has r.files g else holds_root roots q g)
  unfolding put
  holds_root-put r q g = elim (Bool-cases (q == root)) [
    | inl t ↦ rw (holds_root, t) refl
    | inr n ↦ rw (holds_root, n) refl
  ]

  pub holds_root-erase :
      (q g : ℕ)
      → holds_root (erase roots root) q g ≡ (if q == root then false else holds_root roots q g)
  unfolding erase
  holds_root-erase q g = elim (Bool-cases (q == root)) [
    | inl t ↦ rw (holds_root, t) refl
    | inr n ↦ rw (holds_root, n) refl
  ]

  leave_root-none : (f : ℕ) → roots root ≡ none → leave_root roots root f ≡ roots
  unfolding leave_root
  leave_root-none f e = rw (leave_root, e) refl

  leave_root-some :
      (f : ℕ) (r : SourceRoot)
      → roots root ≡ some r
      → leave_root roots root f ≡ put roots root (record r { files = set_remove f r.files })
  unfolding leave_root
  leave_root-some f r e = rw (leave_root, e) refl

  -- Taking a file out of a root.
  pub holds_root-leave :
      (f q g : ℕ)
      → holds_root (leave_root roots root f) q g
        ≡ (holds_root roots q g && not (q == root && g == f))
  holds_root-leave f q g = elim (Option-cases (roots root)) [
    | inl e ↦ ap (λ m. holds_root m q g) (leave_root-none f e) ∙ elim (Bool-cases (q == root)) [
      | inl t ↦
          let same : root ≡ q = sym ((==_iff q root).0 t) in
          let no : holds_root roots q g ≡ false =
            ap (λ k. holds_root roots k g) (sym same) ∙ holds_root-none e g in
          rw no refl
      | inr n ↦ ground arith
    ]
    | inr (r, e) ↦
        ap (λ m. holds_root m q g) (leave_root-some f r e)
        ∙ holds_root-put (record r { files = set_remove f r.files }) q g
        ∙ elim (Bool-cases (q == root)) [
          | inl t ↦
              let same : root ≡ q = sym ((==_iff q root).0 t) in
              let held : holds_root roots q g ≡ has r.files g =
                ap (λ k. holds_root roots k g) (sym same) ∙ holds_root-some r e g in
              rw (t, held) (has-set_remove f r.files g)
          | inr n ↦ rw n (ground arith)
        ]
  ]

-- A file belongs to a root exactly if it is one of the root's files.
abbrev pub RootsAgree : Map ℕ → Map SourceRoot → Type 0
RootsAgree file_roots roots = (f q : ℕ) → holds_root roots q f ≡ root_is (file_roots f) q

abbrev pub other : Option ℕ → ℕ → ℕ → Bool
other none root q = false
other (some p) root q = not (p == root) && q == p

holds_root-leave_previous :
    (roots : Map SourceRoot) (o : Option ℕ) (root f q g : ℕ)
    → holds_root (leave_previous roots o root f) q g
      ≡ (holds_root roots q g && not (g == f && other o root q))
unfolding leave_previous
holds_root-leave_previous roots none root f q g = ground arith
holds_root-leave_previous roots (some p) root f q g = elim (Bool-cases (p == root)) [
  | inl t ↦ rw t (ground arith)
  | inr n ↦ rw n (holds_root-leave roots p f q g ∙ ground arith)
]

root_is-put :
    (file_roots : Map ℕ) (f root g q : ℕ)
    → root_is (put file_roots f root g) q ≡ (if g == f then root == q else root_is (file_roots g) q)
unfolding put
root_is-put file_roots f root g q = elim (Bool-cases (g == f)) [
  | inl t ↦ rw t refl
  | inr n ↦ rw n refl
]

-- In a root but the new one, a file that leaves its old root for it is not.
left_behind :
    (o : Option ℕ) (root q : ℕ)
    → (q == root) ≡ false
    → (root_is o q && not (other o root q)) ≡ false
left_behind none root q n = refl
left_behind (some p) root q n = ground arith

module _ (file_roots : Map ℕ) (roots : Map SourceRoot) (agree : RootsAgree file_roots roots) where
  pub enter-RootsAgree :
      (root f : ℕ) (r : SourceRoot)
      → leave_previous roots (file_roots f) root f root ≡ some r
      → RootsAgree (put file_roots f root) (
          put
            (leave_previous roots (file_roots f) root f)
            root
            (record r { files = set_insert f r.files }))
  enter-RootsAgree root f r e g q =
      let left = leave_previous roots (file_roots f) root f in
      let removed = holds_root-leave_previous roots (file_roots f) root f q g in
      holds_root-put left root (record r { files = set_insert f r.files }) q g
      ∙ elim (Bool-cases (q == root)) [
        | inl t ↦
            let same : q ≡ root = (==_iff q root).0 t in
            let held : has r.files g
                ≡ (holds_root roots q g && not (g == f && other (file_roots f) root q)) =
              sym (holds_root-some left root r e g)
              ∙ ap (λ k. holds_root left k g) (sym same)
              ∙ removed in
            rw (t, has-set_insert f r.files g, held, agree g q, root_is-put file_roots f root g q)
              (ground arith)
        | inr n ↦
            rw (n, removed, agree g q, root_is-put file_roots f root g q)
              (elim (Bool-cases (g == f)) [
                | inl t ↦
                    let here : file_roots g ≡ file_roots f = ap file_roots ((==_iff g f).0 t) in
                    rw (t, here, left_behind (file_roots f) root q n) (ground arith)
                | inr m ↦ rw m (ground arith)
              ])
      ]

  pub leave-RootsAgree :
      (root f : ℕ)
      → file_roots f ≡ some root
      → RootsAgree (erase file_roots f) (leave_root roots root f)
  unfolding erase
  leave-RootsAgree root f e g q = holds_root-leave roots root f q g ∙ elim (Bool-cases (g == f)) [
    | inl t ↦
        let same : g ≡ f = (==_iff g f).0 t in
        let was : holds_root roots q g ≡ (root == q) =
          agree g q ∙ ap (λ k. root_is (file_roots k) q) same ∙ ap (λ o. root_is o q) e in
        rw (t, was) (ground arith)
    | inr n ↦ rw (n, agree g q) (ground arith)
  ]

  pub set_root-RootsAgree :
      (root : ℕ) (r : SourceRoot)
      → ((g : ℕ) → has r.files g ≡ holds_root roots root g)
      → RootsAgree file_roots (put roots root r)
  set_root-RootsAgree root r same g q =
      holds_root-put roots root r q g ∙ elim (Bool-cases (q == root)) [
        | inl t ↦
            rw t (same g ∙ ap (λ k. holds_root roots k g) (sym ((==_iff q root).0 t)) ∙ agree g q)
        | inr n ↦ rw n (agree g q)
      ]
