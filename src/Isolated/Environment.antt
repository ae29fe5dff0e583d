-- ===== src/Isolated/Environment.antt =====
-- The environment that scripts/verify_packages.py runs its commands in.
pub mod Isolation
use autonomic.Common.{
  ℕ, ◌-◌, String, ◌<>◌, Bool, not, ◌&&◌, ◌||◌, Option, none, some, List, [], ◌∷◌, ◌++◌, ◌==◌,
  nat_eq, leb, map, is_empty, if◌then◌else◌,
}
use autonomic.Common.Text.{codes, text_eq}
use autonomic.Boundaries.Deps.{is_space, span}

-- A dictionary of environment variables.
abbrev pub Environ : Type 0
Environ = List (List ℕ × List ℕ)

-- `env[key] = value`
unfoldable pub set_key : List ℕ → List ℕ → Environ → Environ
set_key key value [] = (key, value) ∷ []
set_key key value ((other, old) ∷ env) =
    if other == key then (key, value) ∷ env else (other, old) ∷ set_key key value env

-- `env.pop(key, None)`
unfoldable pub pop_key : List ℕ → Environ → Environ
pop_key key [] = []
pop_key key ((other, old) ∷ env) =
    let rest = pop_key key env in if other == key then rest else (other, old) ∷ rest

-- `env.get(key)`
unfoldable pub get_key : List ℕ → Environ → Option (List ℕ)
get_key key [] = none
get_key key ((other, value) ∷ env) =
    let rest = get_key key env in if other == key then some value else rest

-- Where `splitlines` breaks a text; read_text leaves no carriage return.
abbrev pub is_break : ℕ → Bool
is_break c =
    (leb 10 c && leb c 12) || (leb 28 c && leb c 30) || c == 133 || (leb 8232 c && leb c 8233)

-- `text.splitlines()`
unfoldable pub split_lines : List ℕ → List (List ℕ)
split_lines [] = []
split_lines (c ∷ cs) =
    let rest = split_lines cs in
    if is_break c
    then [] ∷ rest
    else elim rest [ [] ↦ (c ∷ []) ∷ [] | line ∷ lines ↦ (c ∷ line) ∷ lines ]

-- `tool, version = line.split(maxsplit=1)`, which raises where there are not two parts.
unfoldable pub tool_and_version : List ℕ → Option (List ℕ × List ℕ)
unfolding span
tool_and_version line =
    let (tool, behind) = span (λ c. not (is_space c)) (span is_space line).1 in
    let version = (span is_space behind).1 in
    if is_empty tool || is_empty version then none else some (tool, version)

-- `tool.upper()`
abbrev pub upper : List ℕ → List ℕ
upper text = map (λ c. if leb b'a' c && leb c b'z' then c - 32 else c) text

-- `f'ASDF_{tool.upper()}_VERSION'`
abbrev pub version_key : List ℕ → List ℕ
version_key tool = codes "ASDF_" ++ (upper tool ++ codes "_VERSION")

-- The loop over the lines of .tool-versions.
unfoldable pub select_tools : List (List ℕ) → Environ → Option Environ
unfolding tool_and_version set_key
select_tools [] env = some env
select_tools (line ∷ lines) env = elim (tool_and_version line) [
  | none ↦ none
  | some (tool, version) ↦ select_tools lines (set_key (version_key tool) version env)
]

abbrev pub override_key : List ℕ
override_key = codes "TYPESAFE_SDK_PATH"

-- `env`, with the temporary folder `root`; a command may have more set on top of it.
unfoldable pub isolated_env : String → Environ → List ℕ → Option Environ
unfolding select_tools pop_key set_key split_lines
isolated_env root environ tool_versions = select_tools (split_lines tool_versions) (
    pop_key override_key (
      set_key (codes "MIX_ENV") (codes "dev")
        (set_key (codes "HEX_HOME") (codes (root <> "/hex")) environ)))
