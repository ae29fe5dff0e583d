-- ===== src/Qc/Report/Lookup.antt =====
-- The gate of an id in the final list.
use mathlib.Core.Option.{or_else}
use text.Mathlib.TextEquality.{eq_iff}
use autonomic.Common.{
  String, true, not, ◌&&◌, ◌||◌, none, some, List, [], ◌∷◌, ◌++◌, ◌≡◌, refl, ◌∙◌, sym, ap, inl, inr,
  arith, ◌==◌, string_eq, map, select, contains, contains-select, is_some, In, if◌then◌else◌,
  Bool-cases,
}
use autonomic.Qc.Gate.{status_eq, Gate, gate_by_id, mandatory_ids, is_mandatory, pending}
use autonomic.Qc.Report.Defs.{
  dedup, ids, insert_sorted, sorted, missing_ids, missing_gate, complete,
}
use autonomic.Qc.Report.Unique.{winner, gate_by_id-dedup, Distinct}

contains-insert_sorted :
    (a : String) (bs : List String) (x : String)
    → contains (insert_sorted a bs) x ≡ (a == x || contains bs x)
unfolding insert_sorted
contains-insert_sorted a [] x = refl
contains-insert_sorted a (b ∷ bs) x = ground (arith, contains-insert_sorted a bs x)

contains-sorted : (as' : List String) (x : String) → contains (sorted as') x ≡ contains as' x
unfolding sorted
contains-sorted [] x = refl
contains-sorted (a ∷ as') x =
    contains-insert_sorted a (sorted as') x ∙ ap (λ b. a == x || b) (contains-sorted as' x)

contains-ids :
    (gates : List Gate) (id : String) → contains (ids gates) id ≡ is_some (gate_by_id gates id)
unfolding gate_by_id
contains-ids [] id = refl
contains-ids (g ∷ gates) id = ground (arith, contains-ids gates id)

-- An id is missing exactly if it is mandatory and no gate has it.
pub contains-missing_ids :
    (gates : List Gate) (id : String)
    → contains (missing_ids gates) id ≡ (is_mandatory id && not (is_some (gate_by_id gates id)))
unfolding missing_ids is_mandatory
contains-missing_ids gates id =
    contains-sorted (select (λ a. not (contains (ids gates) a)) mandatory_ids) id
    ∙ contains-select (λ a. not (contains (ids gates) a)) mandatory_ids id
    ∙ ap (λ b. contains mandatory_ids id && not b) (contains-ids gates id)

pub gate_by_id-append :
    (xs ys : List Gate) (id : String)
    → gate_by_id (xs ++ ys) id ≡ or_else (gate_by_id xs id) (gate_by_id ys id)
unfolding gate_by_id or_else
gate_by_id-append [] ys id = refl
gate_by_id-append (g ∷ xs) ys id = ground (arith, gate_by_id-append xs ys id)

pub In-gate_by_id :
    (gates : List Gate) {id : String} {g : Gate}
    → gate_by_id gates id ≡ some g
    → In g gates × (g.id ≡ id)
unfolding gate_by_id
In-gate_by_id [] h = cc
In-gate_by_id (h ∷ gates) {id} {g} e = elim (Bool-cases (h.id == id)) [
  | inl same ↦
      let found : h ≡ g = ground (arith, same) in
      (inl found, ap (λ (k : Gate). k.id) (sym found) ∙ (eq_iff h.id id).0 same)
  | inr other ↦
      let (m, q) = In-gate_by_id gates {id = id} {g = g} (ground (arith, other)) in (inr m, q)
]

contains-In : (gates : List Gate) (g : Gate) → In g gates → contains (ids gates) g.id ≡ true
contains-In [] g m = elim m [ ]
contains-In (h ∷ gates) g (inl e) = ground (arith, eq_iff h.id g.id)
contains-In (h ∷ gates) g (inr m) = ground (arith, contains-In gates g m)

pub gate_by_id-In :
    (gates : List Gate) (g : Gate)
    → Distinct (ids gates)
    → In g gates
    → gate_by_id gates g.id ≡ some g
unfolding gate_by_id
gate_by_id-In [] g d m = elim m [ ]
gate_by_id-In (h ∷ gates) g d (inl e) = ground (arith, eq_iff h.id g.id)
gate_by_id-In (h ∷ gates) g d (inr m) =
    ground (arith, contains-In gates g m, eq_iff h.id g.id, gate_by_id-In gates g d.1 m)

pub gate_by_id-missing :
    (names : List String) (id : String)
    → gate_by_id (map missing_gate names) id
      ≡ (if contains names id then some (missing_gate id) else none)
unfolding gate_by_id pending
gate_by_id-missing [] id = refl
gate_by_id-missing (a ∷ names) id = elim (Bool-cases (a == id)) [
  | inl same ↦ rw (same, ap missing_gate ((eq_iff a id).0 same))
  | inr other ↦ rw (other, gate_by_id-missing names id)
]

pub final_gate-some :
    (gates : List Gate) (id : String) {g : Gate}
    → winner gates id ≡ some g
    → gate_by_id (complete (dedup gates)) id ≡ some g
unfolding complete or_else
final_gate-some gates id e =
    gate_by_id-append (dedup gates) _ id ∙ rw (gate_by_id-dedup gates id, e) refl

pub final_gate-none :
    (gates : List Gate) (id : String)
    → is_mandatory id ≡ true
    → winner gates id ≡ none
    → gate_by_id (complete (dedup gates)) id ≡ some (missing_gate id)
unfolding complete or_else
final_gate-none gates id must e =
    gate_by_id-append (dedup gates) _ id
    ∙ rw (gate_by_id-dedup gates id, e)
        (gate_by_id-missing (missing_ids (dedup gates)) id
          ∙ rw (contains-missing_ids (dedup gates) id, must, gate_by_id-dedup gates id, e) refl)
