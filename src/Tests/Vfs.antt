-- ===== src/Tests/Vfs.antt =====
-- crates/rua-ide/src/analysis/vfs/mod.rs, run on the changes of its own tests, and the theorems there.
use rua_lang.Base.{
  ℕ, ◌≡◌, refl, List, [], ◌∷◌, Option, none, some, Call, ok, ◌>>=◌, Returns, codes, arith,
}
use rua_lang.Lex.Kind.{bytes_eq}
use rua_lang.Vfs.{
  Vfs, workspace, library, source, declaration, FileChange, set_text, set_file, remove, set_root,
  Change, put, erase, put_path, erase_path, set_insert, set_remove, bump_file_revision,
  set_file_text, remove_from_path, remove_file_path, add_file_path, leave_root, leave_previous,
  enter_root, set_file_with_path, leave_current, remove_file, set_source_root, forget_files,
  remove_source_root, change_root, change_file, change_project, each, apply_change, new,
  find_in_root, file_for_path_in_root,
}
use rua_lang.Vfs.Changes.{apply_change-Agrees}
use rua_lang.Vfs.Keeps.{Kept, Agrees}
use rua_lang.Vfs.SetFile.{HasFile, set_file_with_path-HasFile}

unfoldable applied : List Change → Call Vfs
unfolding each apply_change change_root change_file change_project new put erase put_path erase_path
    set_insert set_remove bump_file_revision set_file_text remove_from_path remove_file_path
    add_file_path leave_root leave_previous enter_root set_file_with_path leave_current remove_file
    set_source_root forget_files remove_source_root bytes_eq
applied changes = each apply_change new changes

abbrev batch : List FileChange → Change
batch files = record {
  file_changes = files;
  source_root_changes = set_root 1 library ∷ set_root 2 workspace ∷ [];
  project_changes = [];
}

abbrev batches : List Change
batches =
    batch (
      set_text 3 (codes "first")
      ∷ remove 3
      ∷ set_file 3 1 declaration (some (codes "src/api.ruai")) (codes "last")
      ∷ [])
    ∷ batch (set_file 4 2 source (some (codes "src/api.ruai")) (codes "other") ∷ [])
    ∷ []

found : Call (Option (List ℕ) × Option ℕ × Option ℕ)
unfolding applied file_for_path_in_root find_in_root
found = applied batches >>= λ v. ok (
  v.file_texts 3,
  file_for_path_in_root v (codes "src/api.ruai") 1,
  file_for_path_in_root v (codes "src/api.ruai") 2,
)

found_run : found ≡ ok (some (codes "last"), some 3, some 4)
unfolding found
found_run = refl

apply_change-Agrees_example : Kept Agrees (each apply_change new batches)
apply_change-Agrees_example = apply_change-Agrees batches

-- a store with revisions left, in which every number is a root
abbrev known : Vfs
known = record {
  file_texts = λ f. some (codes "old");
  file_revisions = λ f. none;
  next_revision = 5;
  file_kinds = λ f. none;
  file_roots = λ f. none;
  file_paths = λ f. some (codes "src/old.rua");
  path_files = λ p. none;
  source_roots = λ r. some (record { kind = library; files = 2 ∷ [] });
  projects = λ p. none;
}

set_file_with_path-IsSet_example :
    Returns
      (set_file_with_path known 3 1 declaration (some (codes "src/api.ruai")) (codes "new"))
      (λ v. HasFile v 3 1 declaration (some (codes "src/api.ruai")) (codes "new"))
set_file_with_path-IsSet_example =
    set_file_with_path-HasFile known 3 1 declaration (some (codes "src/api.ruai")) (codes "new")
      (record { kind = library; files = 2 ∷ [] }) refl (omega arith)
