-- ===== src/Regex/Edges.antt =====
-- Expressions with a word boundary on one side, as scripts/release.py has them: `\b` before, or
-- `\b` behind.
use mathlib.Core.Path.{subst}
use autonomic.Common.{
  ℕ, Bool, true, false, ◌&&◌, ◌||◌, List, [], ◌∷◌, ◌++◌, ◌≡◌, refl, sym, ap, ◌↔◌, inl, inr, arith,
  Bool-cases,
}
use autonomic.Regex.{Regex, match}
use autonomic.Regex.Matching.{Matches, match_iff, head_split, append-eq-nil}
use autonomic.Regex.Words.{
  is_word, starts_word, ends_word, boundary, bounded_match, bounded_match_iff,
}

leading_from : Regex → Bool → List ℕ → Bool
leading_from r before [] = boundary before false && match r []
leading_from r before (c ∷ cs) =
    (boundary before (is_word c) && match r (c ∷ cs)) || leading_from r (is_word c) cs

-- `re.search(r"\b" + r, text)` succeeds.
unfoldable pub leading_search : Regex → List ℕ → Bool
unfolding leading_from
leading_search r text = leading_from r false text

trailing_from : Regex → Bool → List ℕ → Bool
trailing_from r before [] = bounded_match r before []
trailing_from r before (c ∷ cs) = bounded_match r before (c ∷ cs) || trailing_from r (is_word c) cs

-- `re.search(r + r"\b", text)` succeeds.
unfoldable pub trailing_search : Regex → List ℕ → Bool
unfolding trailing_from bounded_match
trailing_search r text = trailing_from r false text

-- The text holds a match of `r` that begins at a boundary.
abbrev pub MatchesFrom : Regex → Bool → List ℕ → Type 0
MatchesFrom r before t =
    (a : List ℕ) × (u : List ℕ) × (b : List ℕ) × (t ≡ a ++ (u ++ b))
    × Matches r u
    × (boundary (ends_word before a) (starts_word (u ++ b)) ≡ true)

-- The text holds a match of `r` that ends at a boundary.
abbrev pub MatchesTo : Regex → Bool → List ℕ → Type 0
MatchesTo r before t =
    (a : List ℕ) × (u : List ℕ) × (b : List ℕ) × (t ≡ a ++ (u ++ b))
    × Matches r u
    × (boundary (ends_word (ends_word before a) u) (starts_word b) ≡ true)

leading_from_iff :
    (r : Regex) (before : Bool) (t : List ℕ)
    → (leading_from r before t ≡ true) ↔ MatchesFrom r before t
unfolding leading_from
leading_from_iff r before [] = (
  λ h.
      let (u, v, e, m) = (match_iff r []).0 (ground arith) in
      ([], u, v, e, m, subst (λ w. boundary before (starts_word w) ≡ true) e (ground arith)),
  λ (a, u, b, e, m, d).
      let (ea, ew) = append-eq-nil a (u ++ b) (sym e) in
      ground (
        arith,
        (match_iff r []).1 (u, b, sym ew, m),
        ap (ends_word before) ea,
        ap starts_word ew,
        d,
      ),
)
leading_from_iff r before (c ∷ t) = (
  λ h. elim (Bool-cases (boundary before (is_word c) && match r (c ∷ t))) [
    | inl now ↦
        let (u, v, e, m) = (match_iff r (c ∷ t)).0 (ground (arith, now)) in
        (
          [],
          u,
          v,
          e,
          m,
          subst (λ w. boundary before (starts_word w) ≡ true) e (ground (arith, now)),
        )
    | inr later ↦
        let (a, u, b, e, m, d) = (leading_from_iff r (is_word c) t).0 (ground (arith, later, h)) in
        (c ∷ a, u, b, ap (λ w. c ∷ w) e, m, d)
  ],
  λ (a, u, b, e, m, d). elim (head_split a (u ++ b) e refl) [
    | inl (q, f) ↦ ground (
      arith,
      (match_iff r (c ∷ t)).1 (u, b, sym f, m),
      ap (ends_word before) q,
      ap starts_word f,
      d,
    )
    | inr (a', q, f) ↦
        let d' = subst (λ w. boundary (ends_word before w) (starts_word (u ++ b)) ≡ true) q d in
        ground (arith, (leading_from_iff r (is_word c) t).1 (a', u, b, f, m, d'))
  ],
)

trailing_from_iff :
    (r : Regex) (before : Bool) (t : List ℕ)
    → (trailing_from r before t ≡ true) ↔ MatchesTo r before t
unfolding trailing_from
trailing_from_iff r before [] = (
  λ h. let (u, v, e, m, d) = (bounded_match_iff r before []).0 h in ([], u, v, e, m, d),
  λ (a, u, b, e, m, d).
      let (ea, ew) = append-eq-nil a (u ++ b) (sym e) in
      let here =
        subst (λ w. boundary (ends_word (ends_word before w) u) (starts_word b) ≡ true) ea d in
      (bounded_match_iff r before []).1 (u, b, sym ew, m, here),
)
trailing_from_iff r before (c ∷ t) = (
  λ h. elim (Bool-cases (bounded_match r before (c ∷ t))) [
    | inl now ↦
        let (u, v, e, m, d) = (bounded_match_iff r before (c ∷ t)).0 now in ([], u, v, e, m, d)
    | inr later ↦
        let (a, u, b, e, m, d) = (trailing_from_iff r (is_word c) t).0 (ground (arith, later, h)) in
        (c ∷ a, u, b, ap (λ w. c ∷ w) e, m, d)
  ],
  λ (a, u, b, e, m, d). elim (head_split a (u ++ b) e refl) [
    | inl (q, f) ↦
        let here =
          subst (λ w. boundary (ends_word (ends_word before w) u) (starts_word b) ≡ true) q d in
        ground (arith, (bounded_match_iff r before (c ∷ t)).1 (u, b, sym f, m, here))
    | inr (a', q, f) ↦
        let d' =
          subst (λ w. boundary (ends_word (ends_word before w) u) (starts_word b) ≡ true) q d in
        ground (arith, (trailing_from_iff r (is_word c) t).1 (a', u, b, f, m, d'))
  ],
)

-- `leading_search` finds exactly the matches that begin at a boundary.
pub leading_search_iff :
    (r : Regex) (t : List ℕ) → (leading_search r t ≡ true) ↔ MatchesFrom r false t
unfolding leading_search
leading_search_iff r t = leading_from_iff r false t

-- `trailing_search` finds exactly the matches that end at a boundary.
pub trailing_search_iff :
    (r : Regex) (t : List ℕ) → (trailing_search r t ≡ true) ↔ MatchesTo r false t
unfolding trailing_search
trailing_search_iff r t = trailing_from_iff r false t
