-- ===== src/Vfs/Keeps.antt =====
-- crates/rua-ide/src/analysis/vfs/mod.rs: the changes keep the files of the roots in step.
use rua_lang.Base.{
  ℕ, suc, ◌^◌, ◌-◌, sym, inl, inr, List, Option, none, some, Option-cases, option-both, if-both,
  Call, ok, panic, stuck, ◌>>=◌, leb,
}
use rua_lang.Flow.{has}
use rua_lang.Vfs.{
  Vfs, FileKind, SourceRootKind, put, erase, bump_file_revision, same_text, set_file_text,
  remove_file_path, add_file_path, leave_previous, enter_root, set_file_with_path, leave_current,
  remove_file, set_source_root,
}
use rua_lang.Vfs.Index.{
  RootsAgree, enter-RootsAgree, leave-RootsAgree, set_root-RootsAgree, holds_root-some,
  holds_root-none,
}

-- A call does not run out of fuel, and a store that it returns has the property.
abbrev pub Kept : (Vfs → Type 0) → Call Vfs → Type 0
Kept P panic = Unit
Kept P stuck = ⊥
Kept P (ok v) = P v

pub Kept-bind :
    (P Q : Vfs → Type 0) (m : Call Vfs) (k : Vfs → Call Vfs)
    → Kept P m
    → ((v : Vfs) → P v → Kept Q (k v))
    → Kept Q (m >>= k)
Kept-bind P Q panic k h f = tt
Kept-bind P Q stuck k h f = h
Kept-bind P Q (ok v) k h f = f v h

abbrev pub Agrees : Vfs → Type 0
Agrees v = RootsAgree v.file_roots v.source_roots

pub bump-Kept :
    (P : Vfs → Type 0) (v : Vfs) (f : ℕ)
    → P (record v {
      next_revision = suc v.next_revision;
      file_revisions = put v.file_revisions f (suc v.next_revision);
    })
    → Kept P (bump_file_revision v f)
unfolding bump_file_revision
bump-Kept P v f h = if-both (Kept P) (leb (suc v.next_revision) (2 ^ 64 - 1)) (λ _. h) (λ _. tt)

pub set_file_text-Kept :
    (v : Vfs) (f : ℕ) (text : List ℕ) → Agrees v → Kept Agrees (set_file_text v f text)
unfolding set_file_text
set_file_text-Kept v f text a =
    if-both (Kept Agrees) (same_text (v.file_texts f) text) (λ _. a) (λ _. bump-Kept Agrees _ f a)

pub remove_file_path-both :
    (P : Vfs → Type 0) (v : Vfs) (f : ℕ)
    → P v
    → ((paths : ℕ → Option (List ℕ)) (files : List ℕ → Option (List ℕ))
        → P (record v { file_paths = paths; path_files = files }))
    → P (remove_file_path v f)
unfolding remove_file_path
remove_file_path-both P v f h k = option-both P (v.file_paths f) (λ _. h) (λ p _. k _ _)

add_file_path-Agrees :
    (v : Vfs) (f : ℕ) (path : Option (List ℕ)) → Agrees v → Agrees (add_file_path v f path)
unfolding add_file_path
add_file_path-Agrees v f none a = a
add_file_path-Agrees v f (some path) a = a

enter_root-Kept : (v : Vfs) (root f : ℕ) → Agrees v → Kept Agrees (enter_root v root f)
unfolding enter_root
enter_root-Kept v root f a =
    option-both (Kept Agrees) (leave_previous v.source_roots (v.file_roots f) root f root) (λ _. tt)
      (λ r e. enter-RootsAgree v.file_roots v.source_roots a root f r e)

pub set_file_with_path-Kept :
    (v : Vfs) (f root : ℕ) (kind : FileKind) (path : Option (List ℕ)) (text : List ℕ)
    → Agrees v
    → Kept Agrees (set_file_with_path v f root kind path text)
unfolding set_file_with_path
set_file_with_path-Kept v f root kind path text a =
    option-both (Kept Agrees) (v.source_roots root) (λ _. tt)
      (λ r _.
        Kept-bind Agrees Agrees (set_file_text v f text) _ (set_file_text-Kept v f text a) (λ v' b.
          enter_root-Kept _ root f (
            add_file_path-Agrees _ f path (
              remove_file_path-both Agrees (record v' { file_kinds = put v'.file_kinds f kind }) f b
                (λ _ _. b)))))

leave_current-Agrees : (v : Vfs) (f : ℕ) → Agrees v → Agrees (leave_current v f)
unfolding leave_current
leave_current-Agrees v f a =
    option-both Agrees (v.file_roots f) (λ _. a)
      (λ root e. leave-RootsAgree v.file_roots v.source_roots a root f e)

pub remove_file-Kept : (v : Vfs) (f : ℕ) → Agrees v → Kept Agrees (remove_file v f)
unfolding remove_file
remove_file-Kept v f a =
    Kept-bind Agrees Agrees (bump_file_revision v f) _ (bump-Kept Agrees v f a) (λ v' b.
      leave_current-Agrees _ f (
        remove_file_path-both Agrees (record v' { file_kinds = erase v'.file_kinds f }) f b
          (λ _ _. b)))

pub set_source_root-Agrees :
    (v : Vfs) (root : ℕ) (kind : SourceRootKind) → Agrees v → Agrees (set_source_root v root kind)
unfolding set_source_root has
set_source_root-Agrees v root kind a =
    set_root-RootsAgree v.file_roots v.source_roots a root _ (λ g.
      elim (Option-cases (v.source_roots root)) [
        | inl e ↦ rw e (sym (holds_root-none v.source_roots root e g))
        | inr (r, e) ↦ rw e (sym (holds_root-some v.source_roots root r e g))
      ])
