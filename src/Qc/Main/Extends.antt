-- ===== src/Qc/Main/Extends.antt =====
-- The sections of `main` only append gates.
use mathlib.Core.Option.{or_else}
use mathlib.Core.List.{append_assoc, append-nil}
use autonomic.Common.{
  String, false, ◌&&◌, some, none, List, [], ◌∷◌, ◌++◌, ◌≡◌, refl, sym, ap, ◌∙◌, inl, inr, arith,
  ◌==◌, string_eq, contains, Bool-cases,
}
use autonomic.Qc.Gate.{passed, status_eq, Gate, gate_by_id, add_alias_gate, run_gate, pending}
use autonomic.Qc.Gate.Result.{add_alias_gate_lem}
use autonomic.Qc.Plan.{
  Env, tooling_gates, release_gates, postgres_gates, linux_gates, suite_aliases, reference_gates,
  db_ready, linux_ready, migrations,
}
use autonomic.Qc.Main.Barred.{tooling_names, release_names}
use autonomic.Qc.Report.Lookup.{gate_by_id-append}

-- The second list is the first with more behind it.
abbrev pub Extends : List Gate → List Gate → Type 0
Extends gates more = (rest : List Gate) × (more ≡ gates ++ rest)

pub Extends-append : (gates rest : List Gate) → Extends gates (gates ++ rest)
Extends-append gates rest = (rest, refl)

pub Extends-trans : (a b c : List Gate) → Extends a b → Extends b c → Extends a c
Extends-trans a b c (r, e) (s, f) = (r ++ s, f ∙ ap (λ gates. gates ++ s) e ∙ append_assoc a r s)

Extends-alias :
    (id source note : String) (a b : List Gate)
    → Extends a b
    → Extends a (add_alias_gate id source note b)
Extends-alias id source note a b e =
    let (g, appended, named, copied) = add_alias_gate_lem id source note b in
    Extends-trans a b (add_alias_gate id source note b) e (g ∷ [], appended)

pub Extends-postgres_gates :
    (env : Env) (gates : List Gate) → Extends gates (postgres_gates env gates)
unfolding postgres_gates
Extends-postgres_gates env gates = elim (Bool-cases (db_ready env)) [
  | inr barred ↦ rw (barred, postgres_gates) (Extends-append gates _)
  | inl ready ↦ elim (Bool-cases ((migrations env).status == passed)) [
    | inr broken ↦ rw (ready, postgres_gates, broken) (Extends-append gates _)
    | inl migrated ↦
        rw (ready, postgres_gates, migrated)
          (Extends-alias _ _ _ gates _ (
            Extends-alias _ _ _ gates _ (
              Extends-alias _ _ _ gates _ (
                Extends-alias _ _ _ gates _
                  (Extends-alias _ _ _ gates _ (Extends-append gates _))))))
  ]
]

pub Extends-linux_gates : (env : Env) (gates : List Gate) → Extends gates (linux_gates env gates)
unfolding linux_gates
Extends-linux_gates env gates = elim (Bool-cases (linux_ready env)) [
  | inr barred ↦ rw (barred, linux_gates) (Extends-append gates _)
  | inl ready ↦
      rw (ready, linux_gates)
        (Extends-alias _ _ _ gates _ (Extends-alias _ _ _ gates _ (Extends-append gates _)))
]

pub Extends-suite_aliases : (gates : List Gate) → Extends gates (suite_aliases gates)
unfolding suite_aliases
Extends-suite_aliases gates =
    Extends-alias _ _ _ gates _ (Extends-alias _ _ _ gates gates ([], sym (append-nil gates)))

pub Extends-reference_gates :
    (env : Env) (gates : List Gate) → Extends gates (reference_gates env gates)
unfolding reference_gates
Extends-reference_gates env gates = elim (Bool-cases (db_ready env && linux_ready env)) [
  | inr barred ↦ rw (barred, reference_gates) (Extends-append gates _)
  | inl ready ↦
      rw (ready, reference_gates)
        (Extends-alias _ _ _ gates _
          (Extends-alias _ _ _ gates _ (Extends-alias _ _ _ gates _ (Extends-append gates _))))
]

-- The first gate of an id stays the first.
pub gate_by_id-Extends :
    (gates more : List Gate) (id : String) (g : Gate)
    → Extends gates more
    → gate_by_id gates id ≡ some g
    → gate_by_id more id ≡ some g
unfolding or_else
gate_by_id-Extends gates more id g (rest, e) found =
    ap (λ gs. gate_by_id gs id) e ∙ gate_by_id-append gates rest id ∙ rw found refl

-- Gates without the id in front do not matter.
pub gate_by_id-behind :
    (front gates : List Gate) (id : String)
    → gate_by_id front id ≡ none
    → gate_by_id (front ++ gates) id ≡ gate_by_id gates id
unfolding or_else
gate_by_id-behind front gates id absent = gate_by_id-append front gates id ∙ rw absent refl

module _ (id : String) (env : Env) where
  pub gate_by_id-tooling_gates :
      contains tooling_names id ≡ false → gate_by_id (tooling_gates env) id ≡ none
  unfolding tooling_gates run_gate pending gate_by_id
  gate_by_id-tooling_gates h = ground arith

  pub gate_by_id-release_gates :
      contains release_names id ≡ false → gate_by_id (release_gates env) id ≡ none
  unfolding release_gates run_gate pending gate_by_id
  gate_by_id-release_gates h = ground arith
