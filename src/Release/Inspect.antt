-- ===== src/Release/Inspect.antt =====
-- `command_inspect` of scripts/release.py.
pub mod Parts
pub mod Distributable
pub mod Inspected
pub mod Released
use autonomic.Common.{
  ℕ, String, ◌<>◌, Bool, true, false, not, ◌&&◌, ◌||◌, Option, none, some, List, [], ◌∷◌, ◌==◌,
  nat_eq, string_eq, any, all, contains, if◌then◌else◌,
}
use autonomic.Common.Text.{codes, text_eq, starts_with}
use autonomic.Regex.{Regex, char, seq, star, literal}
use autonomic.Regex.Edges.{leading_search}
use autonomic.Boundaries.{mentions}
use autonomic.Boundaries.Deps.{is_space}
use autonomic.Release.Packages.{topological_order, Repository}
use autonomic.Release.Stage.{
  Entry, Contents, no_file, unreadable, entries, Archive, broken, archive, Stage, Outcome, returned,
  raised, on_success,
}
use autonomic.Release.Build.{Hex, tar_files, command_build}

-- `(pkg_unpack / path).is_file()` in the folder that the entries were unpacked to.
unfoldable pub is_file : List Entry → String → Bool
is_file files path = any (λ e. e.path == path && e.is_regular) files

-- `(pkg_unpack / path).exists()`: what an entry is unpacked to, or a folder on the way to one.
unfoldable pub exists : List Entry → String → Bool
exists files path =
    any (λ e. (e.path == path && e.is_present) || starts_with (codes (path <> "/")) (codes e.path))
      files

-- `mix_exs.read_text()`; of entries with one path the last is what is unpacked.
unfoldable pub read_entry : List Entry → String → List ℕ
read_entry [] path = []
read_entry (e ∷ files) path =
    let rest = read_entry files path in
    if is_file files path then rest else if e.path == path then e.text else rest

-- One more character before a text that has been split.
abbrev pub split_before : ℕ → List (List ℕ) → List (List ℕ)
split_before c [] = []
split_before c (part ∷ parts) = if c == b'/' then [] ∷ part ∷ parts else (c ∷ part) ∷ parts

-- `text.split("/")`
unfoldable pub split_slash : List ℕ → List (List ℕ)
split_slash [] = [] ∷ []
split_slash (c ∷ cs) = split_before c (split_slash cs)

-- `\bpath\s*:`, its boundary left out here.
unfoldable pub residual_path : Regex
residual_path = seq (literal (codes "path")) (seq (star (char is_space)) (literal (codes ":")))

abbrev pub mandatory_files : List String
mandatory_files = "README.md" ∷ "LICENSE" ∷ "CHANGELOG.md" ∷ []

abbrev pub forbidden_parts : List String
forbidden_parts = "_build" ∷ "deps" ∷ ".git" ∷ ".env" ∷ "target" ∷ []

-- The mix.exs is there, and has no residual dependency on the workspace.
unfoldable pub is_mix_clean : List Entry → Bool
is_mix_clean files =
    if is_file files "mix.exs"
    then (let mix_text = read_entry files "mix.exs" in
        not (leading_search residual_path mix_text) && not (mentions "in_umbrella: true" mix_text))
    else false

-- The installation inputs that `expected` names.
unfoldable pub has_inputs : String → List Entry → Bool
has_inputs pkg files =
    if pkg == "autonomic_linux"
    then exists files "native/autonomic_launcher/Cargo.lock"
    else if pkg == "autonomic_postgres"
    then exists files "priv/repo/migrations"
    else true

-- An artifact that must not be bundled.
unfoldable pub bundles : List Entry → String → Bool
unfolding split_slash
bundles files bad = any (λ e. contains (split_slash (codes e.name)) (codes bad)) files

-- Do all assertions about the extracted files of a package hold?
unfoldable pub is_accepted : String → List Entry → Bool
is_accepted pkg files =
    is_mix_clean files
    && has_inputs pkg files
    && all (is_file files) mandatory_files
    && all (λ bad. not (bundles files bad)) forbidden_parts

-- The loop over the packages. `passed` is the flag `inspection_passed`.
unfoldable pub inspect_packages : List String → Bool → Stage → Outcome
inspect_packages [] passed s = returned (if passed then 0 else 1)
inspect_packages (pkg ∷ pkgs) passed s = elim (tar_files pkg s.tarballs) [
  | [] ↦ returned 1
  | (name, tar) ∷ tars ↦ elim tar [
    | broken ↦ raised
    | archive members contents ↦
        let failed_here = inspect_packages pkgs false s in
        let unpacked =
          λ (files : List Entry). inspect_packages pkgs (passed && is_accepted pkg files) s in
        if contains members "contents.tar.gz"
        then elim contents [
          | no_file ↦ failed_here
          | unreadable ↦ raised
          | entries files ↦ unpacked files
        ]
        else failed_here
  ]
]

unfoldable pub command_inspect : Repository → Hex → String → Stage → Outcome × Stage
command_inspect repo hex version s =
    on_success (command_build repo hex version s)
      (λ built. (inspect_packages topological_order true built, built))
