-- ===== src/Boundaries/Separated.antt =====
-- When the lint passes.
use autonomic.Common.{
  ℕ, Bool, true, false, List, [], ◌∷◌, ◌++◌, ◌≡◌, ◌↔◌, refl, inl, inr, arith, string_eq, is_empty,
  is_empty-append, All, Bool-cases, if◌then◌else◌,
}
use autonomic.Common.Text.{text_eq}
use autonomic.Boundaries.{
  ElixirFile, Tree, Violation, escaped, root_project, mentions, package_violations, is_exempt,
  source_violations, concat_map, violations, check_boundaries, forbidden_rules,
}
use autonomic.Boundaries.Rules.{
  Mentions, PackageObeys, mentions-false_iff, is_empty-report_if_iff, first_report_iff,
  package_violations_iff,
}

abbrev pub IsConfined : ElixirFile → Type 0
IsConfined f = is_exempt f.parts ≡ false → ¬ Mentions "Autonomic.Dev." f.text

is_empty-concat_map_iff :
    {A : Type 0} (f : A → List Violation) (P : A → Type 0)
    (same : (x : A) → (is_empty (f x) ≡ true) ↔ P x) (xs : List A)
    → (is_empty (concat_map f xs) ≡ true) ↔ All P xs
is_empty-concat_map_iff f P same [] = (λ h. tt, λ h. refl)
is_empty-concat_map_iff f P same (x ∷ xs) =
    let rest = is_empty-concat_map_iff f P same xs in
    let split = is_empty-append (f x) (concat_map f xs) in
    (
      λ h. ((same x).0 (ground (arith, split)), rest.0 (ground (arith, split))),
      λ (p, ps). ground (arith, split, (same x).1 p, rest.1 ps),
    )

source_violations_iff : (f : ElixirFile) → (is_empty (source_violations f) ≡ true) ↔ IsConfined f
unfolding source_violations
source_violations_iff f =
    let dev = mentions-false_iff "Autonomic.Dev." f.text in
    let none = is_empty-report_if_iff (mentions "Autonomic.Dev." f.text) (escaped f.parts) in
    elim (Bool-cases (is_exempt f.parts)) [
      | inl out ↦ (λ h e. cc, λ h. rw out refl)
      | inr kept ↦ (λ h e. dev.0 (none.0 (rw kept at h)), λ h. rw kept (none.1 (dev.1 (h kept))))
    ]

passes : (b : Bool) → ◌≡◌ {A = ℕ} (if b then 0 else 1) 0 → b ≡ true
passes b h = ground arith

-- The lint passes exactly if there is no Mix project in the root, each of the four packages has a
-- mix.exs that declares none of its forbidden dependencies, declares autonomic unless it is
-- autonomic, mentions neither `in_umbrella: true` nor `in_umbrella: :true` nor `apps_path`, and does
-- not declare autonomic_examples_dev, and no source that is not exempt mentions Autonomic.Dev.
pub check_boundaries_iff :
    (tree : Tree)
    → (check_boundaries tree ≡ 0) ↔ (
        (tree.has_root_project ≡ false)
        × All (PackageObeys tree) forbidden_rules
        × All IsConfined tree.sources)
unfolding check_boundaries violations
check_boundaries_iff tree =
    let packages =
      is_empty-concat_map_iff (package_violations tree) (PackageObeys tree)
        (package_violations_iff tree) forbidden_rules in
    let sources =
      is_empty-concat_map_iff source_violations IsConfined source_violations_iff tree.sources in
    let split =
      is_empty-append (concat_map (package_violations tree) forbidden_rules)
        (concat_map source_violations tree.sources) in
    (
      λ h.
          let (root, others) =
            (first_report_iff tree.has_root_project root_project _).0 (passes _ h) in
          (
            root,
            packages.0 (ground (arith, split, others)),
            sources.0 (ground (arith, split, others)),
          ),
      λ (root, p, s).
          let others : is_empty (
                concat_map (package_violations tree) forbidden_rules
                ++ concat_map source_violations tree.sources)
              ≡ true =
            ground (arith, split, packages.1 p, sources.1 s) in
          rw ((first_report_iff tree.has_root_project root_project _).1 (root, others)) refl,
    )
