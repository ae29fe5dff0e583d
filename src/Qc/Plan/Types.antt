-- ===== src/Qc/Plan/Types.antt =====
-- What `main` of scripts/qc.py reads: its arguments, the tools, the files and the environment.
use autonomic.Common.{
  ℕ, String, Bool, true, false, not, ◌||◌, Option, none, some, List, [], ◌∷◌, ◌++◌, ◌==◌, string_eq,
  select, map,
}
use autonomic.Common.Text.{codes, text_eq}
use autonomic.Qc.Inventory.{Checkout}
use autonomic.Qc.Gate.{Gate, Host, run_gate, pending, path_name}

pub record Env : Type 0 where
  pub host : Host
  pub root : String
  pub python : String
  pub which : String → Option String
  pub checkout : Checkout
  pub getenv : String → Option String
  pub is_root_user : Bool
  pub package_name : Option String
  pub included : Option String
  pub excluded : Option String

-- A text or `None`, as a condition.
abbrev pub truthy : Option String → Bool
truthy none = false
truthy (some s) = not (s == "")

-- `t or ""`
abbrev pub text_or_empty : Option String → String
text_or_empty none = ""
text_or_empty (some s) = s

abbrev pub packages : List String
packages =
    "packages/autonomic" ∷ "packages/autonomic_linux" ∷ "packages/autonomic_postgres"
    ∷ "packages/autonomic_typesafe" ∷ []

abbrev pub integration_projects : List String
integration_projects = "integration/autonomic_acceptance" ∷ []

abbrev pub all_projects : List String
all_projects = packages ++ integration_projects

-- The projects that `--package` names; `none` where it names none, which ends the run with 1.
unfoldable pub matching : String → List String
unfolding path_name
matching name = select (λ p. path_name p == codes name || p == name) all_projects

abbrev pub nonempty : List String → Option (List String)
nonempty [] = none
nonempty (p ∷ ps) = some (p ∷ ps)

abbrev pub projects_for : Option String → Option (List String)
projects_for none = some all_projects
projects_for (some name) = elim (truthy (some name)) [
  | true ↦ nonempty (matching name)
  | false ↦ some all_projects
]

unfoldable pub target_projects : Env → Option (List String)
unfolding matching
target_projects env = projects_for env.package_name

-- A gate at the root of the checkout, with nothing added to the environment.
abbrev pub root_gate : Env → String → List String → ℕ → Gate
root_gate env id argv timeout = run_gate env.host id argv "." [] timeout

-- Gates that could not be run, all for one reason.
abbrev pub pending_all : String → List String → List String → List Gate
pending_all reason command ids = map (λ id. pending id reason command) ids
