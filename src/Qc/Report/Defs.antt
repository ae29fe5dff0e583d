-- ===== src/Qc/Report/Defs.antt =====
-- The end of `main` of scripts/qc.py, from "Dedup gates preserving order" on.
use Prim.Native.String.{compare}
use text.Mathlib.Text.{is_le}
use autonomic.Common.{
  ℕ, String, Bool, not, ◌&&◌, ◌||◌, List, [], ◌∷◌, ◌++◌, ◌==◌, string_eq, map, any, select,
  is_empty, contains, if◌then◌else◌,
}
use autonomic.Qc.Gate.{
  passed, failed, not_run, status_eq, Gate, mandatory_ids, is_mandatory, pending,
}

-- The entry `h` of an id, or the new gate `g` for the same id: the entry stays unless it did not
-- run and the new gate did.
unfoldable pub replaced : Gate → Gate → Gate
replaced h g = if h.status == not_run && not (g.status == not_run) then g else h

-- One round of the loop. A dict keeps the order of its insertions, which is `order`.
unfoldable pub keep : Gate → List Gate → List Gate
keep g [] = g ∷ []
keep g (h ∷ kept) = let rest = keep g kept in if h.id == g.id then replaced h g ∷ kept else h ∷ rest

unfoldable pub dedup_from : List Gate → List Gate → List Gate
unfolding keep replaced
dedup_from kept [] = kept
dedup_from kept (g ∷ gates) = dedup_from (keep g kept) gates

unfoldable pub dedup : List Gate → List Gate
unfolding dedup_from
dedup gates = dedup_from [] gates

abbrev pub ids : List Gate → List String
ids = map (λ g. g.id)

-- `sorted(...)`, by insertion.
unfoldable pub insert_sorted : String → List String → List String
insert_sorted a [] = a ∷ []
insert_sorted a (b ∷ bs) = if is_le (compare a b) then a ∷ (b ∷ bs) else b ∷ insert_sorted a bs

unfoldable pub sorted : List String → List String
unfolding insert_sorted
sorted [] = []
sorted (a ∷ as') = insert_sorted a (sorted as')

-- `sorted(MANDATORY - {g["id"] for g in gates})`
unfoldable pub missing_ids : List Gate → List String
unfolding sorted
missing_ids gates = sorted (select (λ id. not (contains (ids gates) id)) mandatory_ids)

abbrev pub missing_gate : String → Gate
missing_gate id = pending id "mandatory gate missing from execution plan" []

unfoldable pub complete : List Gate → List Gate
unfolding missing_ids
complete gates = gates ++ map missing_gate (missing_ids gates)

unfoldable pub mandatory_failures : List Gate → List Gate
unfolding is_mandatory
mandatory_failures gates = select (λ g. is_mandatory g.id && not (g.status == passed)) gates

-- The fields of the report that the gates decide.
pub record Report : Type 0 where
  pub mode : String
  pub status : String
  pub release_ready : Bool
  pub gates : List Gate
  pub mandatory_not_green : List String

unfoldable pub conclude : Bool → List Gate → Report
unfolding dedup complete mandatory_failures
conclude strict gates =
    let final = complete (dedup gates) in
    let failures = mandatory_failures final in
    record {
      mode = if strict then "strict" else "handoff";
      status = if is_empty failures then "release_ready" else "handoff_pending_or_failed";
      release_ready = is_empty failures;
      gates = final;
      mandatory_not_green = ids failures;
    }

unfoldable pub exit_status : Bool → List Gate → ℕ
unfolding conclude
exit_status strict gates =
    let report = conclude strict gates in
    if any (λ g. g.status == failed) report.gates || (strict && not report.release_ready)
    then 1
    else 0
