-- ===== src/Rootfs.antt =====
-- scripts/build_rootfs.py: the executables with their libraries, and the offline configuration.
pub mod Offline
pub mod Libraries
pub mod Installed
mod Tests
use autonomic.Common.{
  ℕ, zero, suc, String, ◌<>◌, Bool, true, false, not, ◌&&◌, ◌||◌, Option, none, some, List, [], ◌∷◌,
  ◌++◌, ◌==◌, nat_eq, string_eq, select, map, contains, length, take, drop, is_empty, is_some,
  if◌then◌else◌,
}
use autonomic.Common.Text.{codes}
use autonomic.Boundaries.Deps.{is_space, span}
use autonomic.Release.Rewrite.{strip}

-- `[^\s()]`
abbrev pub is_path_char : ℕ → Bool
is_path_char c = not (is_space c) && not (c == b'(') && not (c == b')')

paths_from : ℕ → List ℕ → List (List ℕ)
unfolding span
paths_from skip [] = []
paths_from (suc skip) (c ∷ cs) = paths_from skip cs
paths_from zero (c ∷ cs) =
    let taken = (span is_path_char cs).0 in
    let found = paths_from (length taken) cs in
    let next = paths_from zero cs in
    if c == b'/' && not (is_empty taken) then (c ∷ taken) ∷ found else next

-- `re.findall(r'(/[^\s()]+)', text)`; the first argument above is what the last match still covers.
unfoldable pub library_paths : List ℕ → List (List ℕ)
unfolding paths_from
library_paths text = paths_from zero text

-- `path.lstrip('/')`, the path below the root.
unfoldable pub below_root : List ℕ → List ℕ
below_root [] = []
below_root (c ∷ cs) = let rest = below_root cs in if c == b'/' then rest else c ∷ cs

-- What is put into the root file system: at a path below it, a copy of a file of the host, or a
-- link to a path.
pub data Placed : Type 0 where
  file : List ℕ → List ℕ → Placed
  link : List ℕ → List ℕ → Placed

-- The host: where it has an executable, what ldd prints for a file, which paths are files.
pub record Tools : Type 0 where
  pub which : String → Option String
  pub ldd : String → List ℕ
  pub has_path : List ℕ → Bool

-- `dependencies(path)`
unfoldable pub dependencies : Tools → String → List Placed
unfolding library_paths below_root
dependencies host path =
    map (λ library. file (below_root library) library)
      (select host.has_path (library_paths (host.ldd path)))

abbrev pub required_names : List String
required_names =
    "sh" ∷ "bash" ∷ "sleep" ∷ "git" ∷ "patch" ∷ "tar" ∷ "env" ∷ "true" ∷ "false" ∷ "cat" ∷ "mkdir"
    ∷ "rm" ∷ "dirname" ∷ "basename" ∷ "readlink" ∷ "python3" ∷ []

abbrev pub bin_names : List String
bin_names = "sh" ∷ "bash" ∷ "sleep" ∷ "cat" ∷ "mkdir" ∷ "rm" ∷ "true" ∷ "false" ∷ []

-- The link in bin/, where the executable has one.
unfoldable pub bin_link : String → List Placed
bin_link name =
    if contains bin_names name
    then link (codes ("bin/" <> name)) (codes ("/usr/bin/" <> name)) ∷ []
    else []

-- One executable.
unfoldable pub install : Tools → String → String → List Placed
unfolding dependencies bin_link
install host name source =
    (file (codes ("usr/bin/" <> name)) (codes source) ∷ dependencies host source) ++ bin_link name

-- The loop over the executables. Where one is missing the script exits.
unfoldable pub install_all : Tools → List String → Option (List Placed)
unfolding install
install_all host [] = some []
install_all host (name ∷ names) = elim (host.which name) [
  | none ↦ none
  | some source ↦ elim (install_all host names) [
    | none ↦ none
    | some placed ↦ some (install host name source ++ placed)
  ]
]

-- `text.index(part)`, which raises where there is none.
unfoldable pub index : List ℕ → List ℕ → Option ℕ
unfolding strip
index part [] = if is_some (strip part []) then some 0 else none
index part (c ∷ cs) =
    let rest = index part cs in
    if is_some (strip part (c ∷ cs))
    then some 0
    else elim rest [ none ↦ none | some n ↦ some (suc n) ]

abbrev pub hostname_start : List ℕ
hostname_start = codes "set_hostname() ->"

abbrev pub hostname_end : List ℕ
hostname_end = codes "\nset_hostname({ok,Name})"

abbrev pub fixed_hostname : List ℕ
fixed_hostname = codes "set_hostname() ->\n    set_hostname({ok, \"autonomic\"}).\n"

-- `original[:start] + ... + original[end:]`. The second index counts from the start of the text.
unfoldable pub offline : List ℕ → Option (List ℕ)
unfolding index
offline original = elim (index hostname_start original) [
  | none ↦ none
  | some start ↦ elim (index hostname_end (drop start original)) [
    | none ↦ none
    | some more ↦ some (take start original ++ (fixed_hostname ++ drop more (drop start original)))
  ]
]
