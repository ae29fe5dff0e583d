-- ===== src/Qc/Report/Unique.antt =====
-- One gate for each id: its first run, or its first entry if none ran.
use mathlib.Core.Option.{or_else}
use mathlib.Core.Path.{subst}
use text.Mathlib.TextEquality.{eq_iff}
use autonomic.Common.{
  String, Bool, false, not, Option, none, some, List, [], ◌∷◌, ◌++◌, ◌≡◌, refl, ◌∙◌, arith, ◌==◌,
  string_eq, select, contains, inl, inr, sym, ap, ◌||◌, if◌then◌else◌, Bool-cases,
}
use autonomic.Qc.Gate.{not_run, status_eq, Gate, gate_by_id}
use autonomic.Qc.Report.Defs.{replaced, keep, dedup_from, dedup, ids}

abbrev pub has_run : Gate → Bool
has_run g = not (g.status == not_run)

-- The gates that were run.
abbrev pub executed : List Gate → List Gate
executed = select has_run

-- The first run of `id`, or its first entry.
abbrev pub winner : List Gate → String → Option Gate
winner gates id = or_else (gate_by_id (executed gates) id) (gate_by_id gates id)

-- The entry `old` for an id, after `g` was seen under it.
abbrev update : Gate → Option Gate → Option Gate
update g none = some g
update g (some h) = some (replaced h g)

replaced-id : (h g : Gate) → h.id ≡ g.id → (replaced h g).id ≡ g.id
unfolding replaced
replaced-id h g e = ground arith

gate_by_id-keep :
    (g : Gate) (kept : List Gate) (id : String)
    → gate_by_id (keep g kept) id
      ≡ (if g.id == id then update g (gate_by_id kept id) else gate_by_id kept id)
unfolding keep gate_by_id
gate_by_id-keep g [] id = refl
gate_by_id-keep g (h ∷ kept) id = ground (
  arith,
  eq_iff h.id g.id,
  eq_iff g.id id,
  eq_iff h.id id,
  eq_iff (replaced h g).id id,
  replaced-id h g,
  gate_by_id-keep g kept id,
)

-- The entry for `id` behind the gates, from the entry before them.
best : String → Option Gate → List Gate → Option Gate
best id old [] = old
best id old (g ∷ gates) = best id (if g.id == id then update g old else old) gates

gate_by_id-dedup_from :
    (kept gates : List Gate) (id : String)
    → gate_by_id (dedup_from kept gates) id ≡ best id (gate_by_id kept id) gates
unfolding dedup_from best
gate_by_id-dedup_from kept [] id = refl
gate_by_id-dedup_from kept (g ∷ gates) id =
    gate_by_id-dedup_from (keep g kept) gates id
    ∙ ap (λ old. best id old gates) (gate_by_id-keep g kept id)

best-some :
    (id : String) (h : Gate) (gates : List Gate)
    → best id (some h) gates
      ≡ (if has_run h then some h else or_else (gate_by_id (executed gates) id) (some h))
unfolding best gate_by_id or_else replaced
best-some id h [] = ground arith
best-some id h (g ∷ gates) = ground (arith, best-some id h gates, best-some id g gates)

best-none : (id : String) (gates : List Gate) → best id none gates ≡ winner gates id
unfolding best gate_by_id or_else
best-none id [] = refl
best-none id (g ∷ gates) = ground (arith, best-none id gates, best-some id g gates)

-- Behind `dedup` the gate of an id is its first run, or its first entry if it never ran; an id
-- that no gate has stays without one.
pub gate_by_id-dedup :
    (gates : List Gate) (id : String) → gate_by_id (dedup gates) id ≡ winner gates id
unfolding dedup gate_by_id
gate_by_id-dedup gates id = gate_by_id-dedup_from [] gates id ∙ best-none id gates

-- Each text of the list once, at its first place.
abbrev pub first_of_each : List String → List String → List String
first_of_each seen [] = seen
first_of_each seen (a ∷ rest) =
    first_of_each (if contains seen a then seen else seen ++ (a ∷ [])) rest

ids-keep :
    (g : Gate) (kept : List Gate)
    → ids (keep g kept) ≡ (if contains (ids kept) g.id then ids kept else ids kept ++ (g.id ∷ []))
unfolding keep
ids-keep g [] = refl
ids-keep g (h ∷ kept) = ground (arith, eq_iff h.id g.id, replaced-id h g, ids-keep g kept)

ids-dedup_from :
    (kept gates : List Gate) → ids (dedup_from kept gates) ≡ first_of_each (ids kept) (ids gates)
unfolding dedup_from
ids-dedup_from kept [] = refl
ids-dedup_from kept (g ∷ gates) =
    ids-dedup_from (keep g kept) gates
    ∙ ap (λ seen. first_of_each seen (ids gates)) (ids-keep g kept)

-- `dedup` keeps the order in which the ids first occur.
pub ids-dedup : (gates : List Gate) → ids (dedup gates) ≡ first_of_each [] (ids gates)
unfolding dedup
ids-dedup gates = ids-dedup_from [] gates

-- No id stands twice.
abbrev pub Distinct : List String → Type 0
Distinct [] = Unit
Distinct (a ∷ rest) = (contains rest a ≡ false) × Distinct rest

contains-append_one :
    (seen : List String) (a b : String)
    → contains (seen ++ (a ∷ [])) b ≡ (contains seen b || a == b)
contains-append_one [] a b = ground arith
contains-append_one (c ∷ seen) a b = ground (arith, contains-append_one seen a b)

Distinct-append_one :
    (seen : List String) (a : String)
    → contains seen a ≡ false
    → Distinct seen
    → Distinct (seen ++ (a ∷ []))
Distinct-append_one [] a h d = (refl, tt)
Distinct-append_one (c ∷ seen) a h d = (
  ground (arith, contains-append_one seen a c, eq_iff c a, eq_iff a c),
  Distinct-append_one seen a (ground arith) d.1,
)

Distinct-first_of_each :
    (seen rest : List String) → Distinct seen → Distinct (first_of_each seen rest)
Distinct-first_of_each seen [] d = d
Distinct-first_of_each seen (a ∷ rest) d = elim (Bool-cases (contains seen a)) [
  | inl old ↦ rw old (Distinct-first_of_each seen rest d)
  | inr new ↦
      rw new (Distinct-first_of_each (seen ++ (a ∷ [])) rest (Distinct-append_one seen a new d))
]

pub dedup-Distinct : (gates : List Gate) → Distinct (ids (dedup gates))
dedup-Distinct gates =
    subst Distinct (sym (ids-dedup gates)) (Distinct-first_of_each [] (ids gates) tt)
