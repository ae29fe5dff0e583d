-- ===== src/Release/Tests.antt =====
-- A package with build output, a launcher and secrets.
mod Commands
mod Runs
use autonomic.Common.{true, [], ◌∷◌, ◌≡◌, refl, ◌↔◌, string_eq, All}
use autonomic.Release.Copy.{Folder, folder, no_more, entry, is_copied, copy_package_files}
use autonomic.Release.Copy.Staged.{HasFile, IsOpen, Listed, copy_package_files_iff}

abbrev built_package : Folder
built_package = folder ("mix.exs" ∷ ".env.local" ∷ "a.tar" ∷ []) (
    entry "lib" (folder ("a.ex" ∷ "a.beam" ∷ []) no_more) (
      entry "_build" (folder ("x" ∷ []) no_more) (
        entry "priv"
          (folder ("autonomic_launcher" ∷ "seed.sql" ∷ [])
            (entry "target" (folder ("y" ∷ []) no_more) no_more))
          no_more)))

staged :
    copy_package_files built_package
    ≡ ([], "mix.exs") ∷ ("lib" ∷ [], "a.ex") ∷ ("priv" ∷ [], "seed.sql") ∷ []
unfolding copy_package_files
staged = refl

copy_package_files_iff_example : Listed ("lib" ∷ []) "a.ex" (copy_package_files built_package) ↔ (
    HasFile built_package ("lib" ∷ []) "a.ex"
    × All IsOpen ("lib" ∷ [])
    × (is_copied ("lib" ∷ []) "a.ex" ≡ true))
copy_package_files_iff_example = copy_package_files_iff built_package ("lib" ∷ []) "a.ex"
