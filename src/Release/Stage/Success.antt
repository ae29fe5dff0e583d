-- ===== src/Release/Stage/Success.antt =====
-- A command that runs another one first.
use autonomic.Common.{◌≡◌, ap, inl, inr, ◌==◌, nat_eq, Bool-cases, nat_beq_iff}
use autonomic.Release.Stage.{Stage, Outcome, returned, raised, on_success}

-- It returns 0 only if the first has, with the stage that this one left.
pub on_success-returned :
    (first : Outcome × Stage) (next : Stage → Outcome × Stage) (out : Stage)
    → on_success first next ≡ (returned 0, out)
    → (first.0 ≡ returned 0) × (next first.1 ≡ (returned 0, out))
unfolding on_success
on_success-returned (raised, s) next out h = cc h
on_success-returned (returned code, s) next out h = elim (Bool-cases (code == 0)) [
  | inl good ↦ (ap returned ((nat_beq_iff code 0).0 good), rw good at h)
  | inr bad ↦
      let ended : (returned code, s) ≡ (returned 0, out) = rw bad at h in
      let zero : code ≡ 0 = cc ended in cc (bad, (nat_beq_iff code 0).1 zero)
]
