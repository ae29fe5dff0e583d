-- ===== src/Release/Check.antt =====
-- `command_check` of scripts/release.py.
pub mod Publishable
pub mod Ordered
use autonomic.Common.{
  ℕ, String, ◌<>◌, Bool, true, false, not, ◌&&◌, ◌||◌, Option, none, some, List, [], ◌∷◌, ◌==◌,
  nat_eq, if◌then◌else◌,
}
use autonomic.Common.Text.{codes}
use autonomic.Regex.{Regex, char, seq, star, plus, literal, range, search_in}
use autonomic.Regex.Edges.{trailing_search}
use autonomic.Boundaries.{mentions, check_boundaries}
use autonomic.Boundaries.Deps.{is_space}
use autonomic.Release.Packages.{topological_order, Package, Repository, has_file, mix_text, tree_of}

abbrev pub digits : Regex
digits = plus (char (range b'0' b'9'))

-- `[0-9]+\.[0-9]+\.[0-9]+`
unfoldable pub semantic_version : Regex
semantic_version =
    seq digits (seq (literal (codes ".")) (seq digits (seq (literal (codes ".")) digits)))

-- `app:\s*:` and the name, whose boundary behind it is left out here.
unfoldable pub app_identity : String → Regex
app_identity pkg =
    seq (literal (codes "app:")) (seq (star (char is_space)) (literal (codes (":" <> pkg))))

-- `@version "[0-9]+\.[0-9]+\.[0-9]+"`
unfoldable pub version_line : Regex
unfolding semantic_version
version_line = seq (literal (codes "@version \"")) (seq semantic_version (literal (codes "\"")))

-- The errors that are printed.
pub data Complaint : Type 0 where
  missing_mix incorrect_identity invalid_version missing_license_metadata : Complaint
  missing_package_metadata missing_description missing_docs : Complaint
  missing_readme missing_license missing_changelog : Complaint

unfoldable pub check_package : String → Package → Option Complaint
unfolding app_identity version_line
check_package pkg p =
    let content = mix_text p in
    if not (has_file p "mix.exs")
    then some missing_mix
    else if not (trailing_search (app_identity pkg) content)
    then some incorrect_identity
    else if not (search_in version_line content)
    then some invalid_version
    else if not (mentions "licenses: [\"MIT\"]" content)
    then some missing_license_metadata
    else if not (mentions "package:" content) && not (mentions "defp package" content)
    then some missing_package_metadata
    else if not (mentions "description:" content)
    then some missing_description
    else if not (mentions "docs:" content)
    then some missing_docs
    else if not (has_file p "README.md")
    then some missing_readme
    else if not (has_file p "LICENSE")
    then some missing_license
    else if not (has_file p "CHANGELOG.md")
    then some missing_changelog
    else none

-- The loop, up to the first error.
unfoldable pub check_packages : Repository → List String → Option Complaint
unfolding check_package
check_packages repo [] = none
check_packages repo (pkg ∷ pkgs) =
    let rest = check_packages repo pkgs in
    elim (check_package pkg (repo.package_at pkg)) [ none ↦ rest | some c ↦ some c ]

unfoldable pub command_check : Repository → ℕ
unfolding check_packages tree_of
command_check repo =
    let code = check_boundaries (tree_of repo) in
    if repo.has_lint
    then (if code == 0
        then elim (check_packages repo topological_order) [ none ↦ 0 | some c ↦ 1 ]
        else code)
    else 1
