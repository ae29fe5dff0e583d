-- ===== src/Isolated/Passes.antt =====
-- What a successful verification has done.
use mathlib.Core.Path.{subst}
use mathlib.Core.List.{append_assoc, append-nil}
use autonomic.Common.{
  String, true, false, List, [], ◌∷◌, ◌++◌, ◌≡◌, ◌↔◌, refl, sym, ap, ◌∙◌, inl, inr, All, map,
  nat_eq, Bool-cases,
}
use autonomic.Release.Stage.{Stage}
use autonomic.Release.Inspect.{read_entry}
use autonomic.Isolated.Environment.{Environ}
use autonomic.Isolated.{
  Subprocess, Event, tars_copied, ran, served, stopped, prepared, Log, Host, Done, and_then, run,
  unpacked, registry_mix, package_calls, can_prepare, verify_all,
}

pub and_then-true :
    (first : Done) (next : Log → Done) (out : Log)
    → and_then first next ≡ (true, out)
    → (first.0 ≡ true) × (next first.1 ≡ (true, out))
unfolding and_then
and_then-true (false, log) next out h = cc h
and_then-true (true, log) next out h = (refl, h)

module _ (host : Host) where
  -- A command's event says whether it succeeds behind what was done before it.
  abbrev pub Holds : Log → Event → Type 0
  Holds log (ran ok call) = host.succeeds log call ≡ ok
  Holds log (tars_copied tars) = Unit
  Holds log served = Unit
  Holds log stopped = Unit
  Holds log (prepared pkg mix) = Unit

  -- The events are what happens behind the log.
  abbrev pub Follows : Log → List Event → Type 0
  Follows log [] = Unit
  Follows log (e ∷ events) = Holds log e × Follows (log ++ (e ∷ [])) events

  Follows-append_iff :
      (log es fs : List Event) → Follows log (es ++ fs) ↔ (Follows log es × Follows (log ++ es) fs)
  Follows-append_iff log [] fs = rw (append-nil log) (λ h. (tt, h), λ (h, k). k)
  Follows-append_iff log (e ∷ es) fs =
      let rest = Follows-append_iff (log ++ (e ∷ [])) es fs in
      let same : (log ++ (e ∷ [])) ++ es ≡ log ++ (e ∷ es) = append_assoc log (e ∷ []) es in
      (
        λ (h, hs). let (a, b) = rest.0 hs in ((h, a), subst (λ l. Follows l fs) same b),
        λ ((h, a), b). (h, rest.1 (a, subst (λ l. Follows l fs) (sym same) b)),
      )

  -- From the log, the step raises nothing exactly under the condition and if the events are what
  -- happens; and then they are what it does.
  abbrev pub Does : (Log → Done) → Type 0 → List Event → Type 0
  Does step condition events =
      (log out : Log)
      → (step log ≡ (true, out)) ↔ (condition × Follows log events × (out ≡ log ++ events))

  pub Does-run : (calls : List Subprocess) → Does (run host calls) Unit (map (ran true) calls)
  unfolding run
  Does-run [] log out = (
    λ h. (tt, tt, sym (ap (λ d. d.1) h) ∙ sym (append-nil log)),
    λ (c, f, e). ap (λ l. (true, l)) (sym (append-nil log) ∙ sym e),
  )
  Does-run (call ∷ calls) log out =
      let next = log ++ (ran true call ∷ []) in
      let rest = Does-run calls next out in
      let same : next ++ map (ran true) calls ≡ log ++ map (ran true) (call ∷ calls) =
        append_assoc log (ran true call ∷ []) (map (ran true) calls) in
      elim (Bool-cases (host.succeeds log call)) [
        | inl good ↦ (
          λ h. let (c, f, e) = rest.0 (rw good at h) in (tt, (good, f), e ∙ same),
          λ (c, (g, f), e). rw good (rest.1 (tt, f, e ∙ sym same)),
        )
        | inr bad ↦ (λ h. cc (rw bad at h), λ (c, (g, f), e). cc (bad, g))
      ]

  pub Does-and_then :
      (first second : Log → Done) (p q : Type 0) (es fs : List Event)
      → Does first p es
      → Does second q fs
      → Does (λ log. and_then (first log) second) (p × q) (es ++ fs)
  unfolding and_then
  Does-and_then first second p q es fs d1 d2 log out =
      let split = Follows-append_iff log es fs in
      let joined : (log ++ es) ++ fs ≡ log ++ (es ++ fs) = append_assoc log es fs in
      (
        λ h.
            let (ok, later) = and_then-true (first log) second out h in
            let (c, f, e) = (d1 log (first log).1).0 (ap (λ b. (b, (first log).1)) ok) in
            let (c2, f2, e2) = (d2 (log ++ es) out).0 (ap second (sym e) ∙ later) in
            ((c, c2), split.1 (f, f2), e2 ∙ joined),
        λ ((c, c2), f, e).
            let (f1, f2) = split.0 f in
            ap (λ d. and_then d second) ((d1 log (log ++ es)).1 (c, f1, refl))
            ∙ (d2 (log ++ es) out).1 (c2, f2, e ∙ sym joined),
      )

  pub Does-event :
      (step : Log → Done) (p : Type 0) (e : Event) (es : List Event)
      → ((log : Log) → Holds log e)
      → Does step p es
      → Does (λ log. step (log ++ (e ∷ []))) p (e ∷ es)
  Does-event step p e es free d log out =
      let joined : (log ++ (e ∷ [])) ++ es ≡ log ++ (e ∷ es) = append_assoc log (e ∷ []) es in
      let rest = d (log ++ (e ∷ [])) out in
      (
        λ h. let (c, f, q) = rest.0 h in (c, (free log, f), q ∙ joined),
        λ (c, (g, f), q). rest.1 (c, f, q ∙ sym joined),
      )

  -- What `finally` does behind a step.
  pub Does-finally :
      (step : Log → Done) (p : Type 0) (es : List Event) (e : Event)
      → ((log : Log) → Holds log e)
      → Does step p es
      → Does (λ log. ((step log).0, (step log).1 ++ (e ∷ []))) p (es ++ (e ∷ []))
  Does-finally step p es e free d log out =
      let split = Follows-append_iff log es (e ∷ []) in
      let joined : (log ++ es) ++ (e ∷ []) ≡ log ++ (es ++ (e ∷ [])) =
        append_assoc log es (e ∷ []) in
      (
        λ h.
            let (c, f, q) = (d log (step log).1).0 (ap (λ r. (r.0, (step log).1)) h) in
            (
              c,
              split.1 (f, (free (log ++ es), tt)),
              sym (ap (λ r. r.1) h) ∙ ap (λ l. l ++ (e ∷ [])) q ∙ joined,
            ),
        λ (c, f, q).
            let done = (d log (log ++ es)).1 (c, (split.0 f).0, refl) in
            ap (λ r. (r.0, r.1 ++ (e ∷ []))) done ∙ ap (λ l. (true, l)) (joined ∙ sym q),
      )

  module _ (root : String) (env : Environ) (stage : Stage) where
    abbrev pub package_events : List String → List Event
    package_events [] = []
    package_events (pkg ∷ pkgs) =
        (prepared pkg (registry_mix (read_entry (unpacked stage pkg) "mix.exs"))
          ∷ map (ran true) (package_calls root env pkg))
        ++ package_events pkgs

    -- The copies of a package can be made.
    abbrev pub CanPrepare : String → Type 0
    CanPrepare pkg = can_prepare host stage pkg ≡ true

    pub Does-verify_all :
        (pkgs : List String)
        → Does (verify_all host root env stage pkgs) (All CanPrepare pkgs) (package_events pkgs)
    unfolding verify_all
    Does-verify_all [] log out = (
      λ h. (tt, tt, sym (ap (λ d. d.1) h) ∙ sym (append-nil log)),
      λ (c, f, e). ap (λ l. (true, l)) (sym (append-nil log) ∙ sym e),
    )
    Does-verify_all (pkg ∷ pkgs) log out =
        let mix = registry_mix (read_entry (unpacked stage pkg) "mix.exs") in
        let calls = package_calls root env pkg in
        let both =
          Does-and_then (λ l. run host calls (l ++ (prepared pkg mix ∷ [])))
            (verify_all host root env stage pkgs) Unit (All CanPrepare pkgs)
            (prepared pkg mix ∷ map (ran true) calls) (package_events pkgs)
            (Does-event (run host calls) Unit (prepared pkg mix) (map (ran true) calls) (λ l. tt)
              (Does-run calls))
            (Does-verify_all pkgs) log out in
        elim (Bool-cases (can_prepare host stage pkg)) [
          | inl can ↦ (
            λ h. let ((u, cs), f, e) = both.0 (rw (can, verify_all) at h) in ((can, cs), f, e),
            λ ((c, cs), f, e). rw (can, verify_all) (both.1 ((tt, cs), f, e)),
          )
          | inr cannot ↦ (λ h. cc (rw (cannot, verify_all) at h), λ ((c, cs), f, e). cc (c, cannot))
        ]
