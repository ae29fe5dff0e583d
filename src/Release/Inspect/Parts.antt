-- ===== src/Release/Inspect/Parts.antt =====
-- A path as the names between its slashes.
use autonomic.Common.{
  ℕ, false, List, [], ◌∷◌, ◌++◌, ◌≡◌, ◌≢◌, ◌↔◌, refl, sym, ap, ◌∙◌, inl, inr, ◌==◌, nat_eq, All,
  Bool-cases, List-cases, false_iff, nat_beq_iff,
}
use mathlib.Core.Path.{subst}
use autonomic.Release.Inspect.{split_before, split_slash}

-- `"/".join(parts)`
abbrev pub join_slash : List (List ℕ) → List ℕ
join_slash [] = []
join_slash (part ∷ []) = part
join_slash (part ∷ next ∷ parts) = part ++ (b'/' ∷ join_slash (next ∷ parts))

abbrev pub SlashFree : List ℕ → Type 0
SlashFree part = All (λ c. c ≢ b'/') part

-- The parts of a text between its slashes: there is at least one, and none holds a slash.
abbrev pub PartsOf : List ℕ → List (List ℕ) → Type 0
PartsOf text parts = (parts ≢ []) × All SlashFree parts × (join_slash parts ≡ text)

join_slash-longer :
    (c : ℕ) (part : List ℕ) (parts : List (List ℕ))
    → join_slash ((c ∷ part) ∷ parts) ≡ c ∷ join_slash (part ∷ parts)
join_slash-longer c part [] = refl
join_slash-longer c part (next ∷ parts) = refl

other_char : (c : ℕ) → c ≢ b'/' → (c == b'/') ≡ false
other_char c ne = (false_iff (c == b'/') (nat_beq_iff c b'/')).1 ne

split_before-PartsOf :
    (c : ℕ) (text : List ℕ) (parts : List (List ℕ))
    → PartsOf text parts
    → PartsOf (c ∷ text) (split_before c parts)
split_before-PartsOf c text [] (some_part, free, e) = absurd (some_part refl)
split_before-PartsOf c text (part ∷ parts) (some_part, (free, frees), e) =
    elim (Bool-cases (c == b'/')) [
      | inl slash ↦
          let same : c ≡ b'/' = (nat_beq_iff c b'/').0 slash in
          rw slash (λ q. cc q, (tt, (free, frees)), cc (same, e))
      | inr other ↦
          let ne : c ≢ b'/' = (false_iff (c == b'/') (nat_beq_iff c b'/')).0 other in
          rw other
            (λ q. cc q, ((ne, free), frees), join_slash-longer c part parts ∙ ap (λ t. c ∷ t) e)
    ]

split_slash-PartsOf : (text : List ℕ) → PartsOf text (split_slash text)
unfolding split_slash
split_slash-PartsOf [] = (λ q. cc q, (tt, tt), refl)
split_slash-PartsOf (c ∷ text) =
    split_before-PartsOf c text (split_slash text) (split_slash-PartsOf text)

split_slash-append :
    (part text : List ℕ)
    → SlashFree part
    → split_slash (part ++ (b'/' ∷ text)) ≡ part ∷ split_slash text
unfolding split_slash
split_slash-append [] text free = elim (List-cases (split_slash text)) [
  | inl empty ↦ absurd ((split_slash-PartsOf text).0 empty)
  | inr (part, parts, e) ↦ rw e refl
]
split_slash-append (c ∷ part) text (ne, free) =
    rw (split_slash-append part text free, other_char c ne) refl

split_slash-SlashFree : (part : List ℕ) → SlashFree part → split_slash part ≡ part ∷ []
unfolding split_slash
split_slash-SlashFree [] free = refl
split_slash-SlashFree (c ∷ part) (ne, free) =
    rw (split_slash-SlashFree part free, other_char c ne) refl

split_slash-join_slash :
    (part : List ℕ) (parts : List (List ℕ))
    → All SlashFree (part ∷ parts)
    → split_slash (join_slash (part ∷ parts)) ≡ part ∷ parts
split_slash-join_slash part [] (free, frees) = split_slash-SlashFree part free
split_slash-join_slash part (next ∷ parts) (free, frees) =
    split_slash-append part (join_slash (next ∷ parts)) free
    ∙ ap (λ ps. part ∷ ps) (split_slash-join_slash next parts frees)

-- Splitting a path at its slashes gives exactly the non-empty list of slash-free parts that joins
-- back to the path.
pub split_slash_iff :
    (text : List ℕ) (parts : List (List ℕ)) → (split_slash text ≡ parts) ↔ PartsOf text parts
split_slash_iff text [] =
    (λ h. absurd ((split_slash-PartsOf text).0 h), λ (some_part, free, e). absurd (some_part refl))
split_slash_iff text (part ∷ parts) = (
  λ h. subst (PartsOf text) h (split_slash-PartsOf text),
  λ (some_part, free, e). ap split_slash (sym e) ∙ split_slash-join_slash part parts free,
)
