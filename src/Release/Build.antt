-- ===== src/Release/Build.antt =====
-- `command_build` of scripts/release.py.
pub mod Clashes
pub mod Tarballs
use autonomic.Common.{
  ℕ, String, ◌<>◌, Bool, ◌&&◌, Option, none, some, List, [], ◌∷◌, ◌++◌, ◌==◌, nat_eq, string_eq,
  select, if◌then◌else◌,
}
use autonomic.Common.Text.{codes, starts_with, ends_with}
use autonomic.Release.Packages.{topological_order, Repository}
use autonomic.Release.Stage.{Files, Archive, Stage, Outcome, returned, on_success, command_stage}

-- What `mix hex.build` does in the folder of a package with these files: its return code, and the
-- tarballs that are in the folder when it has ended.
pub record HexBuild : Type 0 where
  pub code : ℕ
  pub tarballs : List (String × Archive)

abbrev pub Hex : Type 0
Hex = String → Files → HexBuild

-- `glob(f"{pkg}-*.tar")` finds the name.
unfoldable pub is_tar_of : String → String → Bool
is_tar_of pkg name =
    starts_with (codes (pkg <> "-")) (codes name) && ends_with (codes ".tar") (codes name)

-- `list(folder.glob(f"{pkg}-*.tar"))`
unfoldable pub tar_files : String → List (String × Archive) → List (String × Archive)
unfolding is_tar_of
tar_files pkg tars = select (λ tar. is_tar_of pkg tar.0) tars

-- `shutil.copy2(tar_file, tarballs_dir / tar_file.name)`
unfoldable pub copy_tar : String → Archive → List (String × Archive) → List (String × Archive)
copy_tar name tar [] = (name, tar) ∷ []
copy_tar name tar ((other, old) ∷ tars) =
    if other == name then (name, tar) ∷ tars else (other, old) ∷ copy_tar name tar tars

unfoldable pub files_at : String → List (String × Files) → Files
files_at pkg [] = []
files_at pkg ((other, files) ∷ packages) = if other == pkg then files else files_at pkg packages

-- The loop over the packages.
unfoldable pub build_packages : Hex → List String → Stage → Outcome × Stage
unfolding tar_files copy_tar files_at
build_packages hex [] s = (returned 0, s)
build_packages hex (pkg ∷ pkgs) s =
    let built = hex pkg (files_at pkg s.packages) in
    if built.code == 0
    then elim (tar_files pkg built.tarballs) [
      | [] ↦ (returned 1, s)
      | (name, tar) ∷ tars ↦
          build_packages hex pkgs (record s { tarballs = copy_tar name tar s.tarballs })
    ]
    else (returned built.code, s)

unfoldable pub command_build : Repository → Hex → String → Stage → Outcome × Stage
command_build repo hex version s =
    on_success (command_stage repo version s)
      (λ staged. build_packages hex topological_order staged)
