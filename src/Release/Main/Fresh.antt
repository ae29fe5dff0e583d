-- ===== src/Release/Main/Fresh.antt =====
-- Nothing that an earlier run has left is used again.
use autonomic.Common.{
  String, ◌≡◌, ◌≢◌, ◌⊎◌, refl, ap, inl, inr, ◌==◌, nat_eq, Bool-cases, nat_beq_iff,
}
use autonomic.Common.Text.{codes}
use autonomic.Regex.{fullmatch}
use autonomic.Release.Packages.{topological_order, Repository}
use autonomic.Release.Check.{semantic_version}
use autonomic.Release.Stage.{
  Stage, Outcome, returned, raised, on_success, has_versions, is_core_version, command_stage,
}
use autonomic.Release.Build.{Hex, command_build}
use autonomic.Release.Inspect.{command_inspect}

-- Two runs on two stages come to the same: the same outcome and the same stage, or one failure that
-- leaves each stage as it is.
abbrev pub Alike : Stage → Stage → Outcome × Stage → Outcome × Stage → Type 0
Alike s t first second =
    (first ≡ second) ⊎ ((o : Outcome) × (first ≡ (o, s)) × (second ≡ (o, t)) × (o ≢ returned 0))

command_stage-Alike :
    (repo : Repository) (version : String) (s t : Stage)
    → Alike s t (command_stage repo version s) (command_stage repo version t)
unfolding command_stage
command_stage-Alike repo version s t =
    elim (Bool-cases (fullmatch semantic_version (codes version))) [
      | inr odd ↦ inr (returned 1, rw odd refl, rw odd refl, λ e. cc e)
      | inl semantic ↦ elim (Bool-cases (has_versions repo topological_order)) [
        | inr missing ↦
            inr (raised, rw (semantic, missing) refl, rw (semantic, missing) refl, λ e. cc e)
        | inl found ↦ elim (Bool-cases (is_core_version repo version)) [
          | inr other ↦ inr (
            returned 1,
            rw (semantic, found, other) refl,
            rw (semantic, found, other) refl,
            λ e. cc e,
          )
          | inl core ↦ inl (rw (semantic, found, core) refl)
        ]
      ]
    ]

on_success-Alike :
    (s t : Stage) (first second : Outcome × Stage) (next : Stage → Outcome × Stage)
    → Alike s t first second
    → Alike s t (on_success first next) (on_success second next)
unfolding on_success
on_success-Alike s t first second next (inl same) = inl (ap (λ r. on_success r next) same)
on_success-Alike s t first second next (inr (raised, e, f, failed)) =
    inr (raised, rw (e, on_success) refl, rw (f, on_success) refl, failed)
on_success-Alike s t first second next (inr (returned code, e, f, failed)) =
    elim (Bool-cases (code == 0)) [
      | inl zero ↦ absurd (failed (ap returned ((nat_beq_iff code 0).0 zero)))
      | inr bad ↦
          inr (returned code, rw (e, on_success, bad) refl, rw (f, on_success, bad) refl, failed)
    ]

-- Staging, building and inspecting a version never reuse a stale stage: on any two stages that
-- stood there before, the inspection comes to the same outcome and leaves the same stage, unless it
-- fails before it touches either of them.
pub command_inspect-Alike :
    (repo : Repository) (hex : Hex) (version : String) (s t : Stage)
    → Alike s t (command_inspect repo hex version s) (command_inspect repo hex version t)
unfolding command_inspect command_build
command_inspect-Alike repo hex version s t =
    on_success-Alike s t (command_build repo hex version s) (command_build repo hex version t) _ (
      on_success-Alike s t (command_stage repo version s) (command_stage repo version t) _
        (command_stage-Alike repo version s t))
