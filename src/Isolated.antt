-- ===== src/Isolated.antt =====
-- scripts/verify_packages.py: the inspected packages, installed from a registry of their own.
pub mod Environment
pub mod Adds
pub mod Every
pub mod Shutdown
pub mod Passes
pub mod Verified
pub mod Registry
pub mod Commands
mod Tests
use autonomic.Common.{
  ℕ, String, ◌<>◌, Bool, true, false, not, ◌&&◌, ◌||◌, Option, none, some, List, [], ◌∷◌, ◌++◌,
  ◌==◌, nat_eq, string_eq, select, if◌then◌else◌,
}
use autonomic.Common.Text.{codes, decimal, ends_with}
use autonomic.Release.Packages.{topological_order, Repository}
use autonomic.Release.Rewrite.{strip, sub}
use autonomic.Release.Stage.{
  Entry, no_file, unreadable, entries, Archive, broken, archive, Stage, Outcome, returned, raised,
}
use autonomic.Release.Build.{Hex, tar_files}
use autonomic.Release.Inspect.{is_file, exists, read_entry, command_inspect}
use autonomic.Isolated.Environment.{Environ, set_key, isolated_env}

-- The arguments of `subprocess.run`.
pub record Subprocess : Type 0 where
  pub command : List String
  pub folder : String
  pub env : Environ

-- What the script does: it copies the tarballs, runs a command, which ends with 0 or not, starts
-- and shuts down the server, and lays out a package with its mix.exs.
pub data Event : Type 0 where
  tars_copied : List (String × Archive) → Event
  ran : Bool → Subprocess → Event
  served stopped : Event
  prepared : String → List ℕ → Event

abbrev pub Log : Type 0
Log = List Event

-- The host: its environment, the text of .tool-versions, the number of the port that the server gets, where it gets one, which
-- packages have tests in the checkout, and whether a command succeeds behind what has been done.
pub record Host : Type 0 where
  pub environ : Environ
  pub tool_versions : Option (List ℕ)
  pub port : Option String
  pub has_test : String → Bool
  pub succeeds : Log → Subprocess → Bool

-- Whether something raises, with what has been done; what follows is done where it does not.
abbrev pub Done : Type 0
Done = Bool × Log

unfoldable pub and_then : Done → (Log → Done) → Done
and_then (false, log) next = (false, log)
and_then (true, log) next = next log

-- `subprocess.run(..., check=True)` for commands after one another.
unfoldable pub run : Host → List Subprocess → Log → Done
run host [] log = (true, log)
run host (call ∷ calls) log =
    let ok = host.succeeds log call in
    let rest = run host calls (log ++ (ran ok call ∷ [])) in
    if ok then rest else (false, log ++ (ran ok call ∷ []))

-- The folder that the inspection has unpacked a package to.
unfoldable pub unpacked : Stage → String → List Entry
unpacked stage pkg = elim (tar_files pkg stage.tarballs) [
  | [] ↦ []
  | (name, tar) ∷ tars ↦ elim tar [
    | broken ↦ []
    | archive members contents ↦ elim contents [
      | no_file ↦ []
      | unreadable ↦ []
      | entries files ↦ files
    ]
  ]
]

abbrev pub core_dependency : List ℕ
core_dependency = codes "{:autonomic, \"~> 0.1.0\"}"

abbrev pub registry_dependency : List ℕ
registry_dependency = codes "{:autonomic, \"~> 0.1.0\", repo: \"autonomic_verify\"}"

-- `text.replace(core, registry)`
unfoldable pub registry_mix : List ℕ → List ℕ
unfolding sub strip
registry_mix text = sub (strip core_dependency) registry_dependency text

abbrev pub mix_call : String → String → Environ → List String → Subprocess
mix_call root pkg env arguments = record {
  command = "mix" ∷ arguments;
  folder = root <> "/" <> pkg;
  env = env;
}

-- The commands for a package.
unfoldable pub package_calls : String → Environ → String → List Subprocess
unfolding set_key
package_calls root env pkg =
    mix_call root pkg env ("deps.get" ∷ [])
    ∷ mix_call root pkg env ("compile" ∷ "--warnings-as-errors" ∷ [])
    ∷ mix_call root pkg (set_key (codes "MIX_ENV") (codes "test") env)
        ("test" ∷ (if pkg == "autonomic_postgres" then "--no-start" ∷ [] else []))
    ∷ mix_call root pkg env ("docs" ∷ "--warnings-as-errors" ∷ [])
    ∷ []

-- Do the copies into the package's folder succeed? `copytree` raises without a source, and where
-- the destination is there; `read_text` without a mix.exs.
unfoldable pub can_prepare : Host → Stage → String → Bool
can_prepare host stage pkg =
    host.has_test pkg
    && not (exists (unpacked stage pkg) "test")
    && is_file (unpacked stage pkg) "mix.exs"

-- The loop over the packages.
unfoldable pub verify_all : Host → String → Environ → Stage → List String → Log → Done
unfolding registry_mix package_calls can_prepare
verify_all host root env stage [] log = (true, log)
verify_all host root env stage (pkg ∷ pkgs) log =
    let mix = registry_mix (read_entry (unpacked stage pkg) "mix.exs") in
    if can_prepare host stage pkg
    then and_then (run host (package_calls root env pkg) (log ++ (prepared pkg mix ∷ [])))
        (verify_all host root env stage pkgs)
    else (false, log)

-- The commands before the server is there.
unfoldable pub registry_calls : String → Environ → List Subprocess
registry_calls root env =
    record {
      command = "openssl" ∷ "genrsa" ∷ "-out" ∷ (root <> "/key.pem") ∷ "2048" ∷ [];
      folder = root;
      env = env;
    }
    ∷ record {
      command =
          "mix"
          ∷ "hex.registry"
          ∷ "build"
          ∷ (root <> "/public")
          ∷ "--name"
          ∷ "autonomic_verify"
          ∷ "--private-key"
          ∷ (root <> "/key.pem")
          ∷ [];
      folder = root;
      env = env;
    }
    ∷ []

abbrev pub repo_call : String → Environ → String → Subprocess
repo_call root env port = record {
  command =
      "mix"
      ∷ "hex.repo"
      ∷ "add"
      ∷ "autonomic_verify"
      ∷ ("http://127.0.0.1:" <> port)
      ∷ "--public-key"
      ∷ (root <> "/public/public_key")
      ∷ [];
  folder = root;
  env = env;
}

-- From the start of the server on: whatever raises, `finally` shuts it down.
unfoldable pub with_server : Host → String → Environ → Stage → String → Log → Done
unfolding run verify_all
with_server host root env stage port log =
    let (ok, after) =
      and_then (run host (repo_call root env port ∷ []) (log ++ (served ∷ [])))
        (verify_all host root env stage topological_order) in
    (ok, after ++ (stopped ∷ []))

-- The server gets its port, or raises.
unfoldable pub serve : Host → String → Environ → Stage → Option String → Log → Done
unfolding with_server
serve host root env stage none log = (false, log)
serve host root env stage (some port) log = with_server host root env stage port log

-- `(stage / 'tarballs').glob('*.tar')`
abbrev pub public_tars : Stage → List (String × Archive)
public_tars stage = select (λ tar. ends_with (codes ".tar") (codes tar.0)) stage.tarballs

-- The block of the temporary folder `root`.
unfoldable pub verify_packages : Host → String → Stage → Done
unfolding serve and_then run
verify_packages host root stage = elim host.tool_versions [
  | none ↦ (false, [])
  | some text ↦ elim (isolated_env root host.environ text) [
    | none ↦ (false, [])
    | some env ↦
        and_then (run host (registry_calls root env) (tars_copied (public_tars stage) ∷ []))
          (serve host root env stage host.port)
  ]
]

-- The exit of `main`, with what it has done, from the outcome of the inspection and what the block
-- of the temporary folder does.
unfoldable pub exit : Outcome → Done → Outcome × Log
exit raised done = (raised, [])
exit (returned code) (ok, log) =
    if code == 0 then (if ok then returned 0 else raised, log) else (returned 1, [])

unfoldable pub main : Repository → Hex → Host → String → Stage → Outcome × Log
unfolding verify_packages exit
main repo hex host root before =
    let (outcome, stage) = command_inspect repo hex "0.1.0" before in
    exit outcome (verify_packages host root stage)
