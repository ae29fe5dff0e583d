-- ===== src/Qc/Report/Verdict.antt =====
-- When the report says that the release is ready, and the exit status.
use autonomic.Common.{
  ℕ, String, Bool, true, false, not, ◌&&◌, ◌||◌, some, List, [], ◌∷◌, ◌≡◌, refl, ◌∙◌, sym, ap, ◌↔◌,
  inl, inr, arith, ◌==◌, map, any, contains, contains_iff, string_eq, is_empty-select_iff, All,
  All-append, All-lookup, All-tabulate, In, if◌then◌else◌, Bool-cases, Option-cases, any-false_iff,
  ◌≢◌,
}
use autonomic.Qc.Gate.{passed, failed, status_eq, Gate, is_mandatory, pending}
use autonomic.Qc.Report.Defs.{dedup, missing_ids, missing_gate, complete, conclude, exit_status}
use autonomic.Qc.Report.Unique.{winner, gate_by_id-dedup, dedup-Distinct}
use autonomic.Qc.Report.Lookup.{
  contains-missing_ids, In-gate_by_id, gate_by_id-In, final_gate-some, final_gate-none,
}

-- The gate that stands for `id` ran and passed, or was entered as passed.
abbrev pub Green : List Gate → String → Type 0
Green gates id = (g : Gate) × (winner gates id ≡ some g) × (g.status ≡ passed)

-- What `mandatory_failures` lets through.
abbrev fails : Gate → Bool
fails g = is_mandatory g.id && not (g.status == passed)

-- No gate of the list fails.
abbrev Clean : List Gate → Type 0
Clean = All (λ g. fails g ≡ false)

Clean-Green :
    (gates : List Gate)
    → Clean (complete (dedup gates))
    → (id : String) → is_mandatory id ≡ true
    → Green gates id
unfolding pending
Clean-Green gates clean id must = elim (Option-cases (winner gates id)) [
  | inl absent ↦
      let found = In-gate_by_id (complete (dedup gates)) (final_gate-none gates id must absent) in
      let bad = All-lookup (λ g. fails g ≡ false) (complete (dedup gates)) clean found.0 in
      absurd (ground (arith, must, bad))
  | inr (g, e) ↦
      let found = In-gate_by_id (complete (dedup gates)) (final_gate-some gates id e) in
      let good = All-lookup (λ g. fails g ≡ false) (complete (dedup gates)) clean found.0 in
      (g, e, ground (arith, ap is_mandatory found.1, must, good))
]

Green-Clean-dedup :
    (gates : List Gate)
    → ((id : String) → is_mandatory id ≡ true → Green gates id)
    → Clean (dedup gates)
Green-Clean-dedup gates green = All-tabulate (λ g. fails g ≡ false) (dedup gates) one
  where
    one : (g : Gate) → In g (dedup gates) → fails g ≡ false
    one g m = elim (Bool-cases (is_mandatory g.id)) [
      | inl must ↦
          let (h, e, ok) = green g.id must in
          let same : some h ≡ some g =
            sym e
            ∙ sym (gate_by_id-dedup gates g.id)
            ∙ gate_by_id-In (dedup gates) g (dedup-Distinct gates) m in
          ground (arith, same, ok)
      | inr free ↦ rw free refl
    ]

Green-Clean_missing :
    (gates : List Gate)
    → ((id : String) → is_mandatory id ≡ true → Green gates id)
    → (names : List String)
    → ((id : String) → In id names → contains (missing_ids (dedup gates)) id ≡ true)
    → Clean (map missing_gate names)
Green-Clean_missing gates green [] sub = tt
Green-Clean_missing gates green (id ∷ names) sub =
    let known = sym (contains-missing_ids (dedup gates) id) ∙ sub id (inl refl) in
    let must : is_mandatory id ≡ true = ground (arith, known) in
    let (h, e, ok) = green id must in
    let found = gate_by_id-dedup gates id ∙ e in absurd (ground (arith, known, found))

Green-Clean :
    (gates : List Gate)
    → ((id : String) → is_mandatory id ≡ true → Green gates id)
    → Clean (complete (dedup gates))
unfolding complete
Green-Clean gates green =
    All-append (λ g. fails g ≡ false) (dedup gates) (map missing_gate (missing_ids (dedup gates)))
      (Green-Clean-dedup gates green)
      (Green-Clean_missing gates green (missing_ids (dedup gates))
        (λ id m. (contains_iff (missing_ids (dedup gates)) id).1 m))

-- The release is ready exactly if every mandatory id has a gate that passed: the first of its
-- gates that was run, or the first of them if none was.
pub release_ready_iff :
    (strict : Bool) (gates : List Gate)
    → ((conclude strict gates).release_ready ≡ true)
      ↔ ((id : String) → is_mandatory id ≡ true → Green gates id)
unfolding conclude
release_ready_iff strict gates = (
  λ h. Clean-Green gates ((is_empty-select_iff fails (complete (dedup gates))).0 h),
  λ green. (is_empty-select_iff fails (complete (dedup gates))).1 (Green-Clean gates green),
)

-- No id's gate failed.
abbrev pub NoFailure : List Gate → Type 0
NoFailure gates = (id : String) (g : Gate) → winner gates id ≡ some g → g.status ≢ failed

abbrev IsUnfailed : Gate → Type 0
IsUnfailed g = (g.status == failed) ≡ false

Unfailed-NoFailure : (gates : List Gate) → All IsUnfailed (complete (dedup gates)) → NoFailure gates
Unfailed-NoFailure gates h id g e q =
    let found = In-gate_by_id (complete (dedup gates)) (final_gate-some gates id e) in
    let ok = All-lookup IsUnfailed (complete (dedup gates)) h found.0 in ground (arith, ok, q)

missing-Unfailed : (names : List String) → All IsUnfailed (map missing_gate names)
unfolding pending
missing-Unfailed [] = tt
missing-Unfailed (id ∷ names) = (refl, missing-Unfailed names)

NoFailure-Unfailed : (gates : List Gate) → NoFailure gates → All IsUnfailed (complete (dedup gates))
unfolding complete
NoFailure-Unfailed gates h =
    All-append IsUnfailed (dedup gates) (map missing_gate (missing_ids (dedup gates)))
      (All-tabulate IsUnfailed (dedup gates) (λ g m. ground (
        arith,
        h g.id g (
            sym (gate_by_id-dedup gates g.id)
            ∙ gate_by_id-In (dedup gates) g (dedup-Distinct gates) m),
      )))
      (missing-Unfailed (missing_ids (dedup gates)))

-- The last line of `main`, on its two tests.
code_of_tests : Bool → Bool → Bool → ℕ
code_of_tests any_failed strict ready = if any_failed || (strict && not ready) then 1 else 0

code_of_tests_iff :
    (any_failed strict ready : Bool)
    → (code_of_tests any_failed strict ready ≡ 0)
      ↔ ((any_failed ≡ false) × (strict ≡ true → ready ≡ true))
unfolding code_of_tests
code_of_tests_iff any_failed strict ready =
    (λ h. (ground arith, λ s. ground arith), λ h. ground arith)

-- The script exits with 0 exactly if no gate failed and, in strict mode, the release is ready:
-- every mandatory id has a gate that passed.
pub exit_status_iff :
    (strict : Bool) (gates : List Gate)
    → (exit_status strict gates ≡ 0) ↔ (
        NoFailure gates × (strict ≡ true → (id : String) → is_mandatory id ≡ true → Green gates id))
unfolding exit_status conclude code_of_tests
exit_status_iff strict gates =
    let final = complete (dedup gates) in
    let ready = (conclude strict gates).release_ready in
    let tests = code_of_tests_iff (any (λ g. g.status == failed) final) strict ready in
    let scan = any-false_iff (λ g. g.status == failed) final in
    (
      λ h.
          let (clean, green) = tests.0 h in
          (
            Unfailed-NoFailure gates (scan.0 clean),
            λ s. (release_ready_iff strict gates).0 (green s),
          ),
      λ (clean, green). tests.1 (
        scan.1 (NoFailure-Unfailed gates clean),
        λ s. (release_ready_iff strict gates).1 (green s),
      ),
    )
