-- ===== src/Release/Copy.antt =====
-- `copy_package_files` of scripts/release.py, over a folder as `os.walk` goes through it.
pub mod Staged
use autonomic.Common.{
  ℕ, String, ◌<>◌, Bool, not, ◌&&◌, ◌||◌, List, [], ◌∷◌, ◌++◌, ◌==◌, string_eq, map, any, select,
  contains, if◌then◌else◌,
}
use autonomic.Common.Text.{codes, starts_with, ends_with}

-- `EXCLUDE_PATTERNS`
abbrev pub exclude_patterns : List String
exclude_patterns =
    "_build" ∷ "deps" ∷ ".git" ∷ ".elixir_ls" ∷ "doc" ∷ "target" ∷ "var" ∷ "__pycache__" ∷ ".env"
    ∷ "priv/autonomic_launcher" ∷ []

-- A folder: the names of its files, and its folders with their names.
mutual
  pub data Folder : Type 0 where
    folder : List String → Folders → Folder

  pub data Folders : Type 0 where
    no_more : Folders
    entry : String → Folder → Folders → Folders

-- `str(rel_root / f)`
unfoldable pub slashed : List String → String → String
slashed [] f = f
slashed (d ∷ dirs) f = d <> ("/" <> slashed dirs f)

-- The folders that the walk goes into.
unfoldable pub is_entered : List String → String → Bool
is_entered rel_root d =
    not (contains exclude_patterns d)
    && not (any (λ part. contains exclude_patterns part) (rel_root ++ (d ∷ [])))

-- The files that are copied.
unfoldable pub is_copied : List String → String → Bool
unfolding slashed
is_copied rel_root f = not (
    contains exclude_patterns (slashed rel_root f)
    || starts_with (codes ".env") (codes f)
    || ends_with (codes ".tar") (codes f)
    || f == ".DS_Store"
    || ends_with (codes ".beam") (codes f))

-- The paths that are written below the destination, from a folder at `rel_root` on.
unfoldable mutual
  unfolding is_entered is_copied

  pub copy_folder : List String → Folder → List (List String × String)
  copy_folder rel_root (folder files dirs) =
      map (λ f. (rel_root, f)) (select (is_copied rel_root) files) ++ copy_folders rel_root dirs

  pub copy_folders : List String → Folders → List (List String × String)
  copy_folders rel_root no_more = []
  copy_folders rel_root (entry d sub others) =
      let within = copy_folder (rel_root ++ (d ∷ [])) sub in
      let rest = copy_folders rel_root others in
      if is_entered rel_root d then within ++ rest else rest

unfoldable pub copy_package_files : Folder → List (List String × String)
unfolding copy_folder
copy_package_files src = copy_folder [] src
