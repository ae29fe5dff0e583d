-- ===== src/Release/Stage/Complete.antt =====
-- When staging succeeds, and what it leaves.
use mathlib.Core.List.{append_assoc, append-nil}
use autonomic.Common.{
  ℕ, String, true, false, some, List, [], ◌∷◌, ◌++◌, ◌≡◌, ◌↔◌, refl, sym, ap, ◌∙◌, inl, inr, arith,
  map, All, Bool-cases, Option-cases, false_iff,
}
use autonomic.Common.Text.{codes, text_eq, list_beq_iff}
use autonomic.Regex.{fullmatch}
use autonomic.Regex.Matching.{Matches, fullmatch_iff}
use autonomic.Regex.Edges.{MatchesFrom, leading_search_iff}
use autonomic.Release.Packages.{topological_order, Repository, mix_text}
use autonomic.Release.Check.{semantic_version}
use autonomic.Release.Rewrite.{rewrite_mix, coupling, is_coupled}
use autonomic.Release.Stage.{
  Files, Stage, empty_stage, returned, version_of, has_versions, copied, read_mix, write_mix,
  add_package, stage_packages, is_core_version, command_stage,
}
use autonomic.Release.Stage.Written.{read_mix-copied, has_file-version_of}

module _ (repo : Repository) (version : String) where
  -- The mix.exs that a staged package has.
  abbrev pub staged_mix : String → List ℕ
  staged_mix pkg = rewrite_mix (codes version) (mix_text (repo.package_at pkg))

  -- A package as it is staged: the copied files, the mix.exs rewritten.
  abbrev pub staged_package : String → String × Files
  staged_package pkg = (pkg, write_mix (staged_mix pkg) (copied (repo.package_at pkg)))

  abbrev pub HasVersion : String → Type 0
  HasVersion pkg = (v : List ℕ) × (version_of (repo.package_at pkg) ≡ some v)

  -- Nothing in the rewritten mix.exs couples the package to the workspace.
  abbrev pub IsDecoupled : String → Type 0
  IsDecoupled pkg = ¬ MatchesFrom coupling false (staged_mix pkg)

  is_coupled-false_iff : (pkg : String) → (is_coupled (staged_mix pkg) ≡ false) ↔ IsDecoupled pkg
  unfolding is_coupled
  is_coupled-false_iff pkg = false_iff _ (leading_search_iff coupling (staged_mix pkg))

  module _ (pkg : String) (pkgs : List String) (s : Stage) (v : HasVersion pkg) where
    there : read_mix (copied (repo.package_at pkg)) ≡ some (mix_text (repo.package_at pkg))
    there =
        read_mix-copied (repo.package_at pkg) (has_file-version_of (repo.package_at pkg) v.0 v.1)

    stage_coupled :
        is_coupled (staged_mix pkg) ≡ true
        → stage_packages repo version (pkg ∷ pkgs) s
          ≡ (returned 1, add_package pkg (copied (repo.package_at pkg)) s)
    unfolding stage_packages
    stage_coupled h = rw (there, stage_packages, h) refl

    stage_decoupled :
        is_coupled (staged_mix pkg) ≡ false
        → stage_packages repo version (pkg ∷ pkgs) s
          ≡ stage_packages repo version pkgs
              (record s { packages = s.packages ++ (staged_package pkg ∷ []) })
    unfolding stage_packages
    stage_decoupled h = rw (there, stage_packages, h) refl

  -- The stage behind the loop, when each package has been added.
  abbrev with_packages : List String → Stage → Stage
  with_packages pkgs s = record s { packages = s.packages ++ map staged_package pkgs }

  with_packages-cons :
      (pkg : String) (pkgs : List String) (s : Stage)
      → with_packages pkgs (record s { packages = s.packages ++ (staged_package pkg ∷ []) })
        ≡ with_packages (pkg ∷ pkgs) s
  with_packages-cons pkg pkgs s =
      ap (λ ps. record s { packages = ps })
        (append_assoc s.packages (staged_package pkg ∷ []) (map staged_package pkgs))

  stage_packages_iff :
      (pkgs : List String) (s out : Stage)
      → All HasVersion pkgs
      → (stage_packages repo version pkgs s ≡ (returned 0, out))
        ↔ (All IsDecoupled pkgs × (out ≡ with_packages pkgs s))
  unfolding stage_packages
  stage_packages_iff [] s out vs =
      let same : s ≡ with_packages [] s =
        ap (λ ps. record s { packages = ps }) (sym (append-nil s.packages)) in
      (λ h. (tt, sym (ap (λ r. r.1) h) ∙ same), λ (t, e). ap (λ x. (returned 0, x)) (same ∙ sym e))
  stage_packages_iff (pkg ∷ pkgs) s out (v, vs) =
      let next : Stage = record s { packages = s.packages ++ (staged_package pkg ∷ []) } in
      let rest = stage_packages_iff pkgs next out vs in
      let free = is_coupled-false_iff pkg in
      elim (Bool-cases (is_coupled (staged_mix pkg))) [
        | inl coupled ↦ (
          λ h. cc (sym (stage_coupled pkg pkgs s v coupled) ∙ h),
          λ ((d, ds), e). cc (coupled, free.1 d),
        )
        | inr decoupled ↦
            let step = stage_decoupled pkg pkgs s v decoupled in
            (
              λ h.
                  let (ds, e) = rest.0 (sym step ∙ h) in
                  ((free.0 decoupled, ds), e ∙ with_packages-cons pkg pkgs s),
              λ ((d, ds), e). step ∙ rest.1 (ds, e ∙ sym (with_packages-cons pkg pkgs s)),
            )
      ]

has_versions_iff :
    (repo : Repository) (version : String) (pkgs : List String)
    → (has_versions repo pkgs ≡ true) ↔ All (HasVersion repo version) pkgs
unfolding has_versions
has_versions_iff repo version [] = (λ h. tt, λ h. refl)
has_versions_iff repo version (pkg ∷ pkgs) =
    let rest = has_versions_iff repo version pkgs in
    elim (Option-cases (version_of (repo.package_at pkg))) [
      | inl missing ↦ (λ h. absurd (ground (arith, missing)), λ ((v, e), vs). cc (missing, e))
      | inr (v, e) ↦ (λ h. ((v, e), rest.0 (ground (arith, e))), λ (w, ws). rw e (rest.1 ws))
    ]

is_core_version_iff :
    (repo : Repository) (version : String)
    → (is_core_version repo version ≡ true)
      ↔ (version_of (repo.package_at "autonomic") ≡ some (codes version))
unfolding is_core_version
is_core_version_iff repo version = elim (Option-cases (version_of (repo.package_at "autonomic"))) [
  | inl missing ↦ (λ h. absurd (ground (arith, missing)), λ e. cc (missing, e))
  | inr (core, e) ↦
      let same = list_beq_iff core (codes version) in
      (
        λ h. e ∙ ap some (same.0 (ground (arith, e))),
        λ f. rw (f, is_core_version) ((list_beq_iff (codes version) (codes version)).1 refl),
      )
]

-- Staging succeeds exactly if the version is semantic and the core's, every package has a version,
-- and no rewritten mix.exs holds `path:` or another key of the workspace at the start of a word;
-- what it leaves is, whatever stood there before, the four packages in order, each as it is copied
-- with its mix.exs rewritten, and no tarball.
pub command_stage_iff :
    (repo : Repository) (version : String) (s out : Stage)
    → (command_stage repo version s ≡ (returned 0, out)) ↔ (
        Matches semantic_version (codes version)
        × (version_of (repo.package_at "autonomic") ≡ some (codes version))
        × All (HasVersion repo version) topological_order
        × All (IsDecoupled repo version) topological_order
        × (out ≡ record {
          packages = map (staged_package repo version) topological_order;
          tarballs = [];
        }))
unfolding command_stage
command_stage_iff repo version s out =
    let semantic = fullmatch_iff semantic_version (codes version) in
    let core = is_core_version_iff repo version in
    let versions = has_versions_iff repo version topological_order in
    (
      λ h.
          let matched : fullmatch semantic_version (codes version) ≡ true = ground arith in
          let all : has_versions repo topological_order ≡ true = ground arith in
          let right : is_core_version repo version ≡ true = ground arith in
          let loop =
            stage_packages_iff repo version topological_order empty_stage out (versions.0 all) in
          let (ds, e) = loop.0 (rw (matched, all, right) at h) in
          (semantic.0 matched, core.0 right, versions.0 all, ds, e),
      λ (matched, right, all, ds, e).
          let loop = stage_packages_iff repo version topological_order empty_stage out all in
          rw (semantic.1 matched, versions.1 all, core.1 right) (loop.1 (ds, e)),
    )
