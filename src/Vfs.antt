-- ===== src/Vfs.antt =====
-- crates/rua-ide/src/analysis/vfs/mod.rs: the store of the texts that the analysis reads. A path is
-- its normalized text, a set of files the ascending list of its members.
pub mod Index
pub mod Keeps
pub mod Changes
pub mod SetFile
use rua_lang.Base.{
  ℕ, suc, ◌+◌, ◌-◌, ◌^◌, Bool, true, false, not, ◌&&◌, List, [], ◌∷◌, Option, none, some, Call, ok,
  panic, ◌>>=◌, ◌==◌, ltb, leb, if◌then◌else◌,
}
use rua_lang.Cfg.{CfgOptions}
use rua_lang.Flow.{has}
use rua_lang.Lex.Kind.{bytes_eq}

pub data SourceRootKind : Type 0 where
  workspace library std virtual : SourceRootKind

unfoldable pub is_read_only : SourceRootKind → Bool
is_read_only library = true
is_read_only std = true
is_read_only _ = false

pub data FileKind : Type 0 where
  source declaration : FileKind

pub record SourceRoot : Type 0 where
  pub kind : SourceRootKind
  pub files : List ℕ

pub record ProjectRoot : Type 0 where
  pub source_root_id : ℕ
  pub logical_base : List ℕ

pub record ProjectData : Type 0 where
  pub root_file : ℕ
  pub workspace_roots : List ProjectRoot
  pub dependency_roots : List ProjectRoot
  pub cfg : CfgOptions

-- a hash map from numbers, and one from paths
abbrev pub Map : Type 0 → Type 0
Map V = ℕ → Option V

abbrev pub PathMap : Type 0 → Type 0
PathMap V = List ℕ → Option V

module _ {V : Type 0} where
  unfoldable pub put : Map V → ℕ → V → Map V
  put m k v = λ j. if j == k then some v else m j

  unfoldable pub erase : Map V → ℕ → Map V
  erase m k = λ j. if j == k then none else m j

  unfoldable pub put_path : PathMap V → List ℕ → V → PathMap V
  put_path m k v = λ j. if bytes_eq j k then some v else m j

  unfoldable pub erase_path : PathMap V → List ℕ → PathMap V
  erase_path m k = λ j. if bytes_eq j k then none else m j

unfoldable pub set_insert : ℕ → List ℕ → List ℕ
set_insert f [] = f ∷ []
set_insert f (x ∷ xs) =
    let behind = set_insert f xs in
    if ltb f x then f ∷ x ∷ xs else if f == x then x ∷ xs else x ∷ behind

unfoldable pub set_remove : ℕ → List ℕ → List ℕ
set_remove f [] = []
set_remove f (x ∷ xs) = let behind = set_remove f xs in if x == f then behind else x ∷ behind

pub record Vfs : Type 0 where
  pub file_texts : Map (List ℕ)
  pub file_revisions : Map ℕ
  pub next_revision : ℕ
  pub file_kinds : Map FileKind
  pub file_roots : Map ℕ
  pub file_paths : Map (List ℕ)
  pub path_files : PathMap (List ℕ)
  pub source_roots : Map SourceRoot
  pub projects : Map ProjectData

unfoldable pub bump_file_revision : Vfs → ℕ → Call Vfs
bump_file_revision v f =
    let next = suc v.next_revision in
    if leb next (2 ^ 64 - 1)
    then ok (record v { next_revision = next; file_revisions = put v.file_revisions f next })
    else panic

abbrev pub same_text : Option (List ℕ) → List ℕ → Bool
same_text none text = false
same_text (some old) text = bytes_eq old text

abbrev pub or_insert {ℓ} : {A : Type ℓ} → Option A → A → A
or_insert none a = a
or_insert (some b) a = b

unfoldable pub set_file_text : Vfs → ℕ → List ℕ → Call Vfs
set_file_text v f text =
    if same_text (v.file_texts f) text
    then ok v
    else bump_file_revision
        (record v {
          file_texts = put v.file_texts f text;
          file_kinds = put v.file_kinds f (or_insert (v.file_kinds f) source);
        })
        f

abbrev pub is_empty : List ℕ → Bool
is_empty [] = true
is_empty (x ∷ xs) = false

-- the index of paths without a file, whose path was `path`
unfoldable pub remove_from_path : PathMap (List ℕ) → List ℕ → ℕ → PathMap (List ℕ)
remove_from_path path_files path f = elim (path_files path) [
  | none ↦ path_files
  | some files ↦
      let left = set_remove f files in
      if is_empty left then erase_path path_files path else put_path path_files path left
]

unfoldable pub remove_file_path : Vfs → ℕ → Vfs
remove_file_path v f = elim (v.file_paths f) [
  | none ↦ v
  | some path ↦ record v {
    file_paths = erase v.file_paths f;
    path_files = remove_from_path v.path_files path f;
  }
]

unfoldable pub add_file_path : Vfs → ℕ → Option (List ℕ) → Vfs
add_file_path v f none = v
add_file_path v f (some path) = record v {
  path_files = put_path v.path_files path (set_insert f (or_insert (v.path_files path) []));
  file_paths = put v.file_paths f path;
}

-- the roots with a file taken out of one of them
unfoldable pub leave_root : Map SourceRoot → ℕ → ℕ → Map SourceRoot
leave_root roots root f = elim (roots root) [
  | none ↦ roots
  | some r ↦ put roots root (record r { files = set_remove f r.files })
]

unfoldable pub leave_previous : Map SourceRoot → Option ℕ → ℕ → ℕ → Map SourceRoot
leave_previous roots none root f = roots
leave_previous roots (some previous) root f =
    let left = leave_root roots previous f in if not (previous == root) then left else roots

unfoldable pub enter_root : Vfs → ℕ → ℕ → Call Vfs
enter_root v root f =
    let roots = leave_previous v.source_roots (v.file_roots f) root f in
    elim (roots root) [
      | none ↦ panic
      | some r ↦ ok (record v {
        file_roots = put v.file_roots f root;
        source_roots = put roots root (record r { files = set_insert f r.files });
      })
    ]

unfoldable pub set_file_with_path : Vfs → ℕ → ℕ → FileKind → Option (List ℕ) → List ℕ → Call Vfs
set_file_with_path v f root kind path text = elim (v.source_roots root) [
  | none ↦ panic
  | some r ↦ set_file_text v f text >>= λ v'.
      enter_root
        (add_file_path (remove_file_path (record v' { file_kinds = put v'.file_kinds f kind }) f) f
          path)
        root f
]

unfoldable pub leave_current : Vfs → ℕ → Vfs
leave_current v f = elim (v.file_roots f) [
  | none ↦ v
  | some root ↦ record v {
    file_roots = erase v.file_roots f;
    source_roots = leave_root v.source_roots root f;
  }
]

unfoldable pub remove_file : Vfs → ℕ → Call Vfs
remove_file v f = bump_file_revision v f >>= λ v'.
    let v'' =
      leave_current (remove_file_path (record v' { file_kinds = erase v'.file_kinds f }) f) f in
    ok (record v'' { file_texts = erase v''.file_texts f })

unfoldable pub set_source_root : Vfs → ℕ → SourceRootKind → Vfs
set_source_root v root kind = record v {
  source_roots = put v.source_roots root (elim (v.source_roots root) [
    | none ↦ record { kind = kind; files = [] }
    | some r ↦ record r { kind = kind }
  ]);
}

-- the files of a removed root, one after the other
unfoldable pub forget_files : Vfs → List ℕ → Call Vfs
forget_files v [] = ok v
forget_files v (f ∷ fs) = bump_file_revision v f >>= λ v'.
    forget_files
      (remove_file_path
        (record v' {
          file_texts = erase v'.file_texts f;
          file_kinds = erase v'.file_kinds f;
          file_roots = erase v'.file_roots f;
        })
        f)
      fs

unfoldable pub remove_source_root : Vfs → ℕ → Call Vfs
remove_source_root v root = elim (v.source_roots root) [
  | none ↦ ok v
  | some r ↦ forget_files (record v { source_roots = erase v.source_roots root }) r.files
]

pub data SourceRootChange : Type 0 where
  set_root : ℕ → SourceRootKind → SourceRootChange
  remove_root : ℕ → SourceRootChange

pub data FileChange : Type 0 where
  set_text : ℕ → List ℕ → FileChange
  set_file : ℕ → ℕ → FileKind → Option (List ℕ) → List ℕ → FileChange
  remove : ℕ → FileChange

pub data ProjectChange : Type 0 where
  set_project : ℕ → ProjectData → ProjectChange
  remove_project : ℕ → ProjectChange

pub record Change : Type 0 where
  pub file_changes : List FileChange
  pub source_root_changes : List SourceRootChange
  pub project_changes : List ProjectChange

unfoldable pub change_root : Vfs → SourceRootChange → Call Vfs
change_root v (set_root root kind) = ok (set_source_root v root kind)
change_root v (remove_root root) = remove_source_root v root

unfoldable pub change_file : Vfs → FileChange → Call Vfs
change_file v (set_text f text) = set_file_text v f text
change_file v (set_file f root kind path text) = set_file_with_path v f root kind path text
change_file v (remove f) = remove_file v f

unfoldable pub change_project : Vfs → ProjectChange → Call Vfs
change_project v (set_project id project) = ok (record v { projects = put v.projects id project })
change_project v (remove_project id) = ok (record v { projects = erase v.projects id })

-- one change after the other
unfoldable pub each {ℓ} : {A : Type ℓ} → (Vfs → A → Call Vfs) → Vfs → List A → Call Vfs
each change v [] = ok v
each change v (a ∷ rest) = change v a >>= λ v'. each change v' rest

unfoldable pub apply_change : Vfs → Change → Call Vfs
apply_change v change = each change_root v change.source_root_changes >>= λ v'.
    each change_file v' change.file_changes >>= λ v''.
    each change_project v'' change.project_changes

unfoldable pub new : Vfs
new = record {
  file_texts = λ f. none;
  file_revisions = λ f. none;
  next_revision = 0;
  file_kinds = λ f. none;
  file_roots = λ f. none;
  file_paths = λ f. none;
  path_files = λ p. none;
  source_roots = λ r. none;
  projects = λ p. none;
}

unfoldable pub find_in_root : Map ℕ → ℕ → List ℕ → Option ℕ
find_in_root file_roots root [] = none
find_in_root file_roots root (f ∷ fs) =
    let behind = find_in_root file_roots root fs in
    elim (file_roots f) [ none ↦ behind | some r ↦ if r == root then some f else behind ]

unfoldable pub file_for_path_in_root : Vfs → List ℕ → ℕ → Option ℕ
file_for_path_in_root v path root = elim (v.path_files path) [
  | none ↦ none
  | some files ↦ find_in_root v.file_roots root files
]

unfoldable pub is_file_read_only : Vfs → ℕ → Bool
is_file_read_only v f = elim (v.file_roots f) [
  | none ↦ false
  | some root ↦ elim (v.source_roots root) [ none ↦ false | some r ↦ is_read_only r.kind ]
]
