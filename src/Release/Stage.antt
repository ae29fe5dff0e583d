-- ===== src/Release/Stage.antt =====
-- `command_stage` of scripts/release.py, on the folder _release_stage/<version>.
pub mod Success
pub mod Written
pub mod Complete
use autonomic.Common.{
  ℕ, String, Bool, true, false, not, ◌&&◌, ◌||◌, Option, none, some, List, [], ◌∷◌, ◌++◌, ◌==◌,
  nat_eq, string_eq, map, is_empty, is_some, if◌then◌else◌, ◌⊎◌, inl, inr, ◌≡◌, refl,
}
use autonomic.Common.Text.{codes, text_eq}
use autonomic.Regex.{fullmatch}
use autonomic.Boundaries.Deps.{span}
use autonomic.Release.Copy.{copy_package_files}
use autonomic.Release.Packages.{topological_order, Package, Repository, has_file, mix_text}
use autonomic.Release.Check.{semantic_version}
use autonomic.Release.Rewrite.{strip, rewrite_mix, is_coupled}

-- A path below a folder: the folders, and the file's name.
abbrev pub FilePath : Type 0
FilePath = List String × String

-- The files below a folder, with their texts.
abbrev pub Files : Type 0
Files = List (FilePath × List ℕ)

-- An entry of contents.tar.gz: its name, the path below the folder that it is unpacked to, without
-- `.` and `..`, and of what is then there, following links, whether it is anything, whether it is a
-- regular file, and its text.
pub record Entry : Type 0 where
  pub name : String
  pub path : String
  pub is_present : Bool
  pub is_regular : Bool
  pub text : List ℕ

-- What `tf.extractfile` gives for contents.tar.gz: None, a file that tarfile does not open or does
-- not unpack, or one with these entries.
pub data Contents : Type 0 where
  no_file : Contents
  unreadable : Contents
  entries : List Entry → Contents

-- A Hex tarball: one that tarfile does not open, or the names of its members and the contents.
pub data Archive : Type 0 where
  broken : Archive
  archive : List String → Contents → Archive

-- The stage: the packages, and the tarballs by their file names.
pub record Stage : Type 0 where
  pub packages : List (String × Files)
  pub tarballs : List (String × Archive)

abbrev pub empty_stage : Stage
empty_stage = record { packages = []; tarballs = [] }

-- What a command comes to.
pub data Outcome : Type 0 where
  returned : ℕ → Outcome
  raised : Outcome

pub Outcome-cases : (o : Outcome) → (o ≡ raised) ⊎ ((code : ℕ) × (o ≡ returned code))
Outcome-cases (returned code) = inr (code, refl)
Outcome-cases raised = inl refl

-- `if code != 0: return code` behind a command, and what follows where it succeeds.
unfoldable pub on_success : Outcome × Stage → (Stage → Outcome × Stage) → Outcome × Stage
on_success (raised, s) next = (raised, s)
on_success (returned code, s) next = if code == 0 then next s else (returned code, s)

-- `re.search(r'@version "([^"]+)"', text).group(1)`, from a match at the start of the text.
abbrev pub version_at : List ℕ → Option (List ℕ)
version_at text = elim (strip (codes "@version \"") text) [
  | none ↦ none
  | some inner ↦
      let (taken, rest) = span (λ c. not (c == b'"')) inner in
      if is_empty taken || is_empty rest then none else some taken
]

unfoldable pub find_version : List ℕ → Option (List ℕ)
find_version [] = none
find_version (c ∷ cs) = elim (version_at (c ∷ cs)) [
  | some version ↦ some version
  | none ↦ find_version cs
]

-- The version of a package. Without a mix.exs `read_text` raises, without a match `group`.
unfoldable pub version_of : Package → Option (List ℕ)
unfolding find_version
version_of p = if has_file p "mix.exs" then find_version (mix_text p) else none

-- Do all packages have one?
unfoldable pub has_versions : Repository → List String → Bool
unfolding version_of
has_versions repo [] = true
has_versions repo (pkg ∷ pkgs) =
    is_some (version_of (repo.package_at pkg)) && has_versions repo pkgs

-- What `copy_package_files` leaves in the destination.
unfoldable pub copied : Package → Files
unfolding copy_package_files
copied p = map (λ path. (path, p.read path.0 path.1)) (copy_package_files p.tree)

abbrev pub is_mix : FilePath → Bool
is_mix ([], name) = name == "mix.exs"
is_mix (dir ∷ dirs, name) = false

-- `mix_path.read_text()`
unfoldable pub read_mix : Files → Option (List ℕ)
read_mix [] = none
read_mix ((path, text) ∷ files) = if is_mix path then some text else read_mix files

-- `mix_path.write_text(text)`, where the file is there.
unfoldable pub write_mix : List ℕ → Files → Files
write_mix new [] = []
write_mix new ((path, text) ∷ files) =
    (path, if is_mix path then new else text) ∷ write_mix new files

abbrev pub add_package : String → Files → Stage → Stage
add_package pkg files s = record s { packages = s.packages ++ ((pkg, files) ∷ []) }

-- The loop over the packages.
unfoldable pub stage_packages : Repository → String → List String → Stage → Outcome × Stage
unfolding copied read_mix write_mix rewrite_mix is_coupled
stage_packages repo version [] s = (returned 0, s)
stage_packages repo version (pkg ∷ pkgs) s =
    let files = copied (repo.package_at pkg) in
    elim (read_mix files) [
      | none ↦ (raised, add_package pkg files s)
      | some content ↦
          let transformed = rewrite_mix (codes version) content in
          let later =
            stage_packages repo version pkgs (add_package pkg (write_mix transformed files) s) in
          if is_coupled transformed then (returned 1, add_package pkg files s) else later
    ]

-- `versions["autonomic"] != version`
unfoldable pub is_core_version : Repository → String → Bool
is_core_version repo version = elim (version_of (repo.package_at "autonomic")) [
  | none ↦ false
  | some core ↦ core == codes version
]

unfoldable pub command_stage : Repository → String → Stage → Outcome × Stage
command_stage repo version s =
    if not (fullmatch semantic_version (codes version))
    then (returned 1, s)
    else if not (has_versions repo topological_order)
    then (raised, s)
    else if not (is_core_version repo version)
    then (returned 1, s)
    else stage_packages repo version topological_order empty_stage
