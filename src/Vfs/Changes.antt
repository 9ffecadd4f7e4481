-- ===== src/Vfs/Changes.antt =====
-- crates/rua-ide/src/analysis/vfs/mod.rs: removed roots, and batches of changes.
use rua_lang.Base.{
  ℕ, ◌≡◌, ◌≢◌, refl, sym, ◌∙◌, ap, inl, inr, ◌⊎◌, Bool, true, false, List, [], ◌∷◌, Option, none,
  some, option-both, if-both, Call, ◌==◌, ==_iff, if◌then◌else◌, Bool-cases,
}
use rua_lang.Flow.{has}
use rua_lang.Flow.Reach.{has-cases, has-nil, has-cons, has_self}
use rua_lang.Vfs.{
  Vfs, SourceRootChange, set_root, remove_root, FileChange, set_text, set_file, remove,
  ProjectChange, set_project, remove_project, Change, erase, bump_file_revision, forget_files,
  remove_source_root, change_root, change_file, change_project, each, apply_change, new,
}
use rua_lang.Vfs.Index.{holds_root, root_is, holds_root-erase, holds_root-some}
use rua_lang.Vfs.Keeps.{
  Kept, Kept-bind, Agrees, bump-Kept, set_file_text-Kept, remove_file_path-both,
  set_file_with_path-Kept, remove_file-Kept, set_source_root-Agrees,
}

-- A root has been taken away, and of the files that were in it `pending` are still to be forgotten.
record Forgets (root : ℕ) (pending : List ℕ) (v : Vfs) : Type 0 where
  gone : (g : ℕ) → holds_root v.source_roots root g ≡ false
  held : (g q : ℕ) → holds_root v.source_roots q g ≡ true → root_is (v.file_roots g) q ≡ true
  owned :
      (g q : ℕ)
      → root_is (v.file_roots g) q ≡ true
      → (holds_root v.source_roots q g ≡ true) ⊎ (has pending g ≡ true)
  waiting : (g : ℕ) → has pending g ≡ true → (v.file_roots g ≡ some root) ⊎ (v.file_roots g ≡ none)

abbrev Owner : Type 0
Owner = ℕ → Option ℕ

erase-here : (owner : Owner) (f g : ℕ) → (g == f) ≡ true → erase owner f g ≡ none
unfolding erase
erase-here owner f g t = rw t refl

erase-elsewhere : (owner : Owner) (f g : ℕ) → (g == f) ≡ false → erase owner f g ≡ owner g
unfolding erase
erase-elsewhere owner f g n = rw n refl

root_is-some : (o : Option ℕ) (root : ℕ) → root_is o root ≡ true → o ≡ some root
root_is-some none root h = cc
root_is-some (some r) root h = ap (λ (n : ℕ). some n) ((==_iff r root).0 h)

not_both : (b : Bool) → b ≡ true → b ≢ false
not_both b t f = let both = sym t ∙ f in cc

Forgets-next :
    (root f : ℕ) (fs : List ℕ) (v v' : Vfs)
    → Forgets root (f ∷ fs) v
    → v'.file_roots ≡ erase v.file_roots f
    → v'.source_roots ≡ v.source_roots
    → Forgets root fs v'
Forgets-next root f fs v v' h owners roots = record {
  gone = λ g. ap (λ m. holds_root m root g) roots ∙ h.gone g;
  held = λ g q k.
      let k' : holds_root v.source_roots q g ≡ true = ap (λ m. holds_root m q g) (sym roots) ∙ k in
      elim (Bool-cases (g == f)) [
        | inl t ↦
            let same : g ≡ f = (==_iff g f).0 t in
            absurd (forgotten q (ap (holds_root v.source_roots q) (sym same) ∙ k'))
        | inr n ↦
            ap (λ (m : Owner). root_is (m g) q) owners
            ∙ ap (λ o. root_is o q) (erase-elsewhere v.file_roots f g n)
            ∙ h.held g q k'
      ];
  owned = λ g q k. elim (Bool-cases (g == f)) [
    | inl t ↦
        let none_left : root_is (v'.file_roots g) q ≡ false =
          ap (λ (m : Owner). root_is (m g) q) owners
          ∙ ap (λ o. root_is o q) (erase-here v.file_roots f g t) in
        absurd (not_both _ k none_left)
    | inr n ↦
        let old : root_is (v.file_roots g) q ≡ true =
          sym (
            ap (λ (m : Owner). root_is (m g) q) owners
            ∙ ap (λ o. root_is o q) (erase-elsewhere v.file_roots f g n))
          ∙ k in
        elim (h.owned g q old) [
          | inl w ↦ inl (ap (λ m. holds_root m q g) roots ∙ w)
          | inr w ↦ elim (has-cases fs f g w) [
            | inl same ↦ absurd (not_both (g == f) ((==_iff g f).1 (sym same)) n)
            | inr behind ↦ inr behind
          ]
        ]
  ];
  waiting = λ g k. elim (Bool-cases (g == f)) [
    | inl t ↦ inr (ap (λ (m : Owner). m g) owners ∙ erase-here v.file_roots f g t)
    | inr n ↦
        let now = ap (λ (m : Owner). m g) owners ∙ erase-elsewhere v.file_roots f g n in
        elim (h.waiting g (has-cons fs f g k)) [ inl e ↦ inl (now ∙ e) | inr e ↦ inr (now ∙ e) ]
  ];
}
  where
    -- The file that is forgotten is in no root.
    forgotten : (q : ℕ) → holds_root v.source_roots q f ≢ true
    forgotten q k = elim (h.waiting f (has_self fs f)) [
      | inl e ↦
          let here : (root == q) ≡ true = sym (ap (λ o. root_is o q) e) ∙ h.held f q k in
          let same : root ≡ q = (==_iff root q).0 here in
          not_both _ k (ap (λ m. holds_root v.source_roots m f) (sym same) ∙ h.gone f)
      | inr e ↦ not_both _ (h.held f q k) (ap (λ o. root_is o q) e)
    ]

Forgets-done : (root : ℕ) (v : Vfs) → Forgets root [] v → Agrees v
Forgets-done root v h g q = elim (Bool-cases (root_is (v.file_roots g) q)) [
  | inl t ↦ elim (h.owned g q t) [ inl w ↦ w ∙ sym t | inr w ↦ absurd (has-nil g w) ]
  | inr n ↦ elim (Bool-cases (holds_root v.source_roots q g)) [
    | inl w ↦ absurd (not_both _ (h.held g q w) n)
    | inr w ↦ w ∙ sym n
  ]
]

forget_files-Kept :
    (root : ℕ) (fs : List ℕ) (v : Vfs) → Forgets root fs v → Kept Agrees (forget_files v fs)
unfolding forget_files
forget_files-Kept root [] v h = Forgets-done root v h
forget_files-Kept root (f ∷ fs) v h =
    Kept-bind (Forgets root (f ∷ fs)) Agrees (bump_file_revision v f) _
      (bump-Kept (Forgets root (f ∷ fs)) v f
        (record { gone = h.gone; held = h.held; owned = h.owned; waiting = h.waiting }))
      (λ v' k. forget_files-Kept root fs _ (
        remove_file_path-both (Forgets root fs) _ f (Forgets-next root f fs v' _ k refl refl)
          (λ paths files. Forgets-next root f fs v' _ k refl refl)))

remove_source_root-Kept : (v : Vfs) (root : ℕ) → Agrees v → Kept Agrees (remove_source_root v root)
unfolding remove_source_root
remove_source_root-Kept v root a =
    option-both (Kept Agrees) (v.source_roots root) (λ _. a)
      (λ r e. forget_files-Kept root r.files _ (record {
        gone = λ g.
            holds_root-erase v.source_roots root root g
            ∙ if-both (λ b. b ≡ false) (root == root) (λ _. refl)
                (λ n. absurd (not_both _ ((==_iff root root).1 refl) n));
        held = λ g q k. elim (Bool-cases (q == root)) [
          | inl t ↦
              let no = holds_root-erase v.source_roots root q g in
              absurd
                (not_both _ k (no ∙ ap (λ b. if b then false else holds_root v.source_roots q g) t))
          | inr n ↦
              let same =
                holds_root-erase v.source_roots root q g
                ∙ ap (λ b. if b then false else holds_root v.source_roots q g) n in
              sym (a g q) ∙ sym same ∙ k
        ];
        owned = λ g q k. elim (Bool-cases (q == root)) [
          | inl t ↦ inr (
              sym (holds_root-some v.source_roots root r e g)
              ∙ ap (λ m. holds_root v.source_roots m g) (sym ((==_iff q root).0 t))
              ∙ a g q
              ∙ k)
          | inr n ↦ inl (
              holds_root-erase v.source_roots root q g
              ∙ ap (λ b. if b then false else holds_root v.source_roots q g) n
              ∙ a g q
              ∙ k)
        ];
        waiting = λ g k. inl (
            root_is-some (v.file_roots g) root
              (sym (a g root) ∙ holds_root-some v.source_roots root r e g ∙ k));
      }))

each-Kept {ℓ} :
    {A : Type ℓ} (change : Vfs → A → Call Vfs)
    → ((v : Vfs) (x : A) → Agrees v → Kept Agrees (change v x))
    → (v : Vfs) (xs : List A) → Agrees v
    → Kept Agrees (each change v xs)
unfolding each
each-Kept change keep v [] a = a
each-Kept change keep v (x ∷ xs) a =
    Kept-bind Agrees Agrees (change v x) _ (keep v x a) (λ v' b. each-Kept change keep v' xs b)

change_root-Kept : (v : Vfs) (c : SourceRootChange) → Agrees v → Kept Agrees (change_root v c)
unfolding change_root
change_root-Kept v (set_root root kind) a = set_source_root-Agrees v root kind a
change_root-Kept v (remove_root root) a = remove_source_root-Kept v root a

change_file-Kept : (v : Vfs) (c : FileChange) → Agrees v → Kept Agrees (change_file v c)
unfolding change_file
change_file-Kept v (set_text f text) a = set_file_text-Kept v f text a
change_file-Kept v (set_file f root kind path text) a =
    set_file_with_path-Kept v f root kind path text a
change_file-Kept v (remove f) a = remove_file-Kept v f a

change_project-Kept : (v : Vfs) (c : ProjectChange) → Agrees v → Kept Agrees (change_project v c)
unfolding change_project
change_project-Kept v (set_project id project) a = a
change_project-Kept v (remove_project id) a = a

apply_change-Kept : (v : Vfs) (c : Change) → Agrees v → Kept Agrees (apply_change v c)
unfolding apply_change
apply_change-Kept v c a =
    Kept-bind Agrees Agrees (each change_root v c.source_root_changes) _
      (each-Kept change_root change_root-Kept v c.source_root_changes a)
      (λ v' b.
        Kept-bind Agrees Agrees (each change_file v' c.file_changes) _
          (each-Kept change_file change_file-Kept v' c.file_changes b)
          (λ v'' d. each-Kept change_project change_project-Kept v'' c.project_changes d))

-- In every store that batches of changes make of the empty one, a file belongs to a root exactly if it
-- is one of the root's files. A batch panics at most: it is not stuck.
pub apply_change-Agrees : (changes : List Change) → Kept Agrees (each apply_change new changes)
unfolding new
apply_change-Agrees changes = each-Kept apply_change apply_change-Kept new changes (λ f q. refl)
