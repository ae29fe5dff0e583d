-- ===== src/Rootfs/Offline.antt =====
-- What the offline configuration keeps of the original.
use mathlib.Core.Option.{some-injective}
use autonomic.Common.{
  ℕ, suc, some, List, [], ◌∷◌, ◌++◌, ◌≡◌, ◌↔◌, refl, sym, ap, ◌∙◌, inl, inr, arith, length, take,
  drop, Option-cases,
}
use autonomic.Release.Rewrite.{strip}
use autonomic.Release.Rewrite.Matches.{Closes, strip_iff, first_later}
use autonomic.Release.Rewrite.Rewritten.{drop-append}
use autonomic.Rootfs.{index, hostname_start, hostname_end, fixed_hostname, offline}

-- The part stands in the text at this place, and nowhere before.
abbrev pub StandsAt : List ℕ → List ℕ → ℕ → Type 0
StandsAt part t n =
    (middle : List ℕ) × (rest : List ℕ) × (Closes part middle rest t × (length middle ≡ n))

index-StandsAt : (part t : List ℕ) (n : ℕ) → index part t ≡ some n → StandsAt part t n
unfolding index
index-StandsAt part [] n h = elim (Option-cases (strip part [])) [
  | inl missing ↦ cc (rw missing at h)
  | inr (rest, here) ↦
      let zero_place : 0 ≡ n = cc (rw here at h) in
      ([], rest, (((strip_iff part [] rest).0 here, λ a b e. omega arith), zero_place))
]
index-StandsAt part (c ∷ cs) n h = elim (Option-cases (strip part (c ∷ cs))) [
  | inr (rest, here) ↦
      let zero_place : 0 ≡ n = cc (rw here at h) in
      ([], rest, (((strip_iff part (c ∷ cs) rest).0 here, λ a b e. omega arith), zero_place))
  | inl other ↦ elim (Option-cases (index part cs)) [
    | inl missing ↦ cc (rw (other, missing) at h)
    | inr (m, found) ↦
        let (middle, rest, ((join, first), size)) = index-StandsAt part cs m found in
        let place : suc m ≡ n = cc (rw (other, found) at h) in
        (
          c ∷ middle,
          rest,
          ((ap (λ w. c ∷ w) join, first_later part middle c cs other first), ap suc size ∙ place),
        )
  ]
]

Closes-index :
    (part middle rest t : List ℕ) → Closes part middle rest t → index part t ≡ some (length middle)
unfolding index
Closes-index part [] rest [] (join, first) = rw ((strip_iff part [] rest).1 join) refl
Closes-index part (m ∷ ms) rest [] (join, first) = cc
Closes-index part [] rest (c ∷ cs) (join, first) = rw ((strip_iff part (c ∷ cs) rest).1 join) refl
Closes-index part (m ∷ ms) rest (c ∷ cs) (join, first) = elim (Option-cases (strip part (c ∷ cs))) [
  | inr (r, here) ↦ absurd (omega (arith, first [] r ((strip_iff part (c ∷ cs) r).0 here)))
  | inl other ↦
      let tails : cs ≡ ms ++ (part ++ rest) = cc in
      let later =
        Closes-index part ms rest cs
          (tails, λ a b e. omega (arith, first (c ∷ a) b (ap (λ w. c ∷ w) e))) in
      rw (other, later) refl
]

take-append : (xs ys : List ℕ) → take (length xs) (xs ++ ys) ≡ xs
take-append [] ys = refl
take-append (x ∷ xs) ys = ap (λ zs. x ∷ zs) (take-append xs ys)

-- What is before the part, and what begins with it.
module _ (part before rest t : List ℕ) (join : t ≡ before ++ (part ++ rest)) where
  take-before : take (length before) t ≡ before
  take-before = ap (take (length before)) join ∙ take-append before (part ++ rest)

  drop-before : drop (length before) t ≡ part ++ rest
  drop-before = ap (drop (length before)) join ∙ drop-append before (part ++ rest)

-- The text cut at the place of the part.
abbrev Cut : List ℕ → List ℕ → ℕ → Type 0
Cut part t n =
    (before : List ℕ) × (rest : List ℕ) × (Closes part before rest t
      × ((take n t ≡ before) × (drop n t ≡ part ++ rest)))

index-Cut : (part t : List ℕ) (n : ℕ) → index part t ≡ some n → Cut part t n
index-Cut part t n h =
    let (before, rest, (closes, size)) = index-StandsAt part t n h in
    (
      before,
      rest,
      (
        closes,
        (
          ap (λ k. take k t) (sym size) ∙ take-before part before rest t closes.0,
          ap (λ k. drop k t) (sym size) ∙ drop-before part before rest t closes.0,
        ),
      ),
    )

spliced :
    (start before tail later out : List ℕ)
    → some (start ++ (fixed_hostname ++ tail)) ≡ some out
    → start ≡ before
    → tail ≡ later
    → out ≡ before ++ (fixed_hostname ++ later)
spliced start before tail later out made kept same =
    let plain : start ++ (fixed_hostname ++ tail) ≡ out = some-injective _ _ made in
    sym plain
    ∙ ap (λ w. w ++ (fixed_hostname ++ tail)) kept
    ∙ ap (λ w. before ++ (fixed_hostname ++ w)) same

-- The original from the definition of set_hostname/0 up to the next clause, replaced; what stands
-- before and from there on is kept.
abbrev pub Replaced : List ℕ → List ℕ → Type 0
Replaced original out =
    (before : List ℕ) × (rest : List ℕ) × (old : List ℕ) × (after : List ℕ) × (Closes hostname_start
      before rest original)
    × (Closes hostname_end old after (hostname_start ++ rest))
    × (out ≡ before ++ (fixed_hostname ++ (hostname_end ++ after)))

-- The offline configuration is made exactly where `set_hostname() ->` stands in the original and
-- behind it the clause `set_hostname({ok,Name})` on a new line; and it is the original with all
-- between the first place of the one and the next place of the other replaced by the fixed name.
pub offline_iff : (original out : List ℕ) → (offline original ≡ some out) ↔ Replaced original out
unfolding offline
offline_iff original out = (
  λ h. elim (Option-cases (index hostname_start original)) [
    | inl missing ↦ cc (rw (missing, offline) at h)
    | inr (n, found) ↦ elim (Option-cases (index hostname_end (drop n original))) [
      | inl missing ↦ cc (rw (found, missing, offline) at h)
      | inr (m, next) ↦
          let (before, rest, (closes, (kept, behind))) =
            index-Cut hostname_start original n found in
          let (old, after, (closes2, (kept2, behind2))) =
            index-Cut hostname_end (hostname_start ++ rest) m
              (ap (index hostname_end) (sym behind) ∙ next) in
          let made : some (take n original ++ (fixed_hostname ++ drop m (drop n original)))
              ≡ some out =
            rw (found, next, offline) at h in
          let tail : drop m (drop n original) ≡ hostname_end ++ after =
            ap (drop m) behind ∙ behind2 in
          (before, rest, old, after, closes, closes2, spliced _ _ _ _ out made kept tail)
    ]
  ],
  λ (before, rest, old, after, closes, closes2, e).
      let found = Closes-index hostname_start before rest original closes in
      let behind = drop-before hostname_start before rest original closes.0 in
      let next =
        ap (index hostname_end) behind
        ∙ Closes-index hostname_end old after (hostname_start ++ rest) closes2 in
      let kept = take-before hostname_start before rest original closes.0 in
      let tail =
        ap (drop (length old)) behind
        ∙ drop-before hostname_end old after (hostname_start ++ rest) closes2.0 in
      rw (found, next, offline)
        (ap (λ w. some (w ++ (fixed_hostname ++ drop (length old) (drop (length before) original))))
            kept
          ∙ ap (λ w. some (before ++ (fixed_hostname ++ w))) tail
          ∙ ap some (sym e)),
)
