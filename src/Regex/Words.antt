-- ===== src/Regex/Words.antt =====
-- Expressions between word boundaries, `\b` before and behind, as SECRET_PATTERNS of
-- scripts/qc.py have them.
use mathlib.Core.Path.{subst}
use autonomic.Common.{
  ℕ, Bool, true, false, ◌&&◌, ◌||◌, List, [], ◌∷◌, ◌++◌, ◌≡◌, refl, sym, ap, ◌↔◌, inl, inr, arith,
  ◌==◌, nat_eq, Bool-cases,
}
use autonomic.Regex.{Regex, nullable, derive, range}
use autonomic.Regex.Matching.{
  Matches, derive_sound, derive_complete, nullable_sound, nullable_complete, head_split,
  append-eq-nil,
}

-- `\w`, for bytes.
abbrev pub is_word : ℕ → Bool
is_word c = range b'a' b'z' c || (range b'A' b'Z' c || (range b'0' b'9' c || c == b'_'))

abbrev pub starts_word : List ℕ → Bool
starts_word [] = false
starts_word (c ∷ cs) = is_word c

-- Is the last byte of the text a word's, or, of the empty text, `before`?
abbrev pub ends_word : Bool → List ℕ → Bool
ends_word before [] = before
ends_word before (c ∷ cs) = ends_word (is_word c) cs

-- `\b`: exactly one of the two neighbours belongs to a word.
abbrev pub boundary : Bool → Bool → Bool
boundary true b = elim b [ true ↦ false | false ↦ true ]
boundary false b = b

-- A beginning of the text matches `r` and ends at a boundary.
unfoldable pub bounded_match : Regex → Bool → List ℕ → Bool
bounded_match r before [] = nullable r && boundary before false
bounded_match r before (c ∷ cs) =
    (nullable r && boundary before (is_word c)) || bounded_match (derive c r) (is_word c) cs

bounded_from : Regex → Bool → List ℕ → Bool
bounded_from r before [] = boundary before false && bounded_match r before []
bounded_from r before (c ∷ cs) =
    (boundary before (is_word c) && bounded_match r before (c ∷ cs))
    || bounded_from r (is_word c) cs

-- `re.search(rb"\b" + r + rb"\b", text)` succeeds.
unfoldable pub bounded_search : Regex → List ℕ → Bool
unfolding bounded_match bounded_from nullable derive
bounded_search r text = bounded_from r false text

abbrev pub MatchesUpTo : Regex → Bool → List ℕ → Type 0
MatchesUpTo r before t =
    (u : List ℕ) × (v : List ℕ) × (t ≡ u ++ v)
    × Matches r u
    × (boundary (ends_word before u) (starts_word v) ≡ true)

pub bounded_match_iff :
    (r : Regex) (before : Bool) (t : List ℕ)
    → (bounded_match r before t ≡ true) ↔ MatchesUpTo r before t
unfolding bounded_match
bounded_match_iff r before [] = (
  λ h. ([], [], refl, nullable_sound r (ground arith), ground arith),
  λ (u, v, e, m, b).
      let (eu, ev) = append-eq-nil u v (sym e) in
      ground (arith, nullable_complete m eu, ap (ends_word before) eu, ap starts_word ev, b),
)
bounded_match_iff r before (c ∷ t) = (
  λ h. elim (Bool-cases (nullable r && boundary before (is_word c))) [
    | inl now ↦ ([], c ∷ t, refl, nullable_sound r (ground (arith, now)), ground (arith, now))
    | inr later ↦
        let (u, v, e, m, b) =
          (bounded_match_iff (derive c r) (is_word c) t).0 (ground (arith, later, h)) in
        (c ∷ u, v, ap (λ w. c ∷ w) e, derive_sound c r m, b)
  ],
  λ (u, v, e, m, b). elim (head_split u v e refl) [
    | inl (q, f) ↦
        ground (arith, nullable_complete m q, ap (ends_word before) q, ap starts_word f, b)
    | inr (u', q, f) ↦
        let b' = subst (λ w. boundary (ends_word before w) (starts_word v) ≡ true) q b in
        ground (
          arith,
          (bounded_match_iff (derive c r) (is_word c) t).1 (u', v, f, derive_complete c m u' q, b'),
        )
  ],
)

-- The text holds a match of `r` between two boundaries.
abbrev pub MatchesBounded : Regex → Bool → List ℕ → Type 0
MatchesBounded r before t =
    (a : List ℕ) × (u : List ℕ) × (b : List ℕ) × (t ≡ a ++ (u ++ b))
    × Matches r u
    × (boundary (ends_word before a) (starts_word (u ++ b)) ≡ true)
    × (boundary (ends_word (ends_word before a) u) (starts_word b) ≡ true)

bounded_from_iff :
    (r : Regex) (before : Bool) (t : List ℕ)
    → (bounded_from r before t ≡ true) ↔ MatchesBounded r before t
unfolding bounded_from
bounded_from_iff r before [] = (
  λ h.
      let (u, v, e, m, b) = (bounded_match_iff r before []).0 (ground arith) in
      ([], u, v, e, m, subst (λ w. boundary before (starts_word w) ≡ true) e (ground arith), b),
  λ (a, u, v, e, m, b, d).
      let (ea, ew) = append-eq-nil a (u ++ v) (sym e) in
      let here =
        subst (λ w. boundary (ends_word (ends_word before w) u) (starts_word v) ≡ true) ea d in
      let found = (bounded_match_iff r before []).1 (u, v, sym ew, m, here) in
      ground (arith, found, ap (ends_word before) ea, ap starts_word ew, b),
)
bounded_from_iff r before (c ∷ t) = (
  λ h. elim (Bool-cases (boundary before (is_word c) && bounded_match r before (c ∷ t))) [
    | inl now ↦
        let (u, v, e, m, b) = (bounded_match_iff r before (c ∷ t)).0 (ground (arith, now)) in
        (
          [],
          u,
          v,
          e,
          m,
          subst (λ w. boundary before (starts_word w) ≡ true) e (ground (arith, now)),
          b,
        )
    | inr later ↦
        let (a, u, v, e, m, b, d) =
          (bounded_from_iff r (is_word c) t).0 (ground (arith, later, h)) in
        (c ∷ a, u, v, ap (λ w. c ∷ w) e, m, b, d)
  ],
  λ (a, u, v, e, m, b, d). elim (head_split a (u ++ v) e refl) [
    | inl (q, f) ↦
        let here =
          subst (λ w. boundary (ends_word (ends_word before w) u) (starts_word v) ≡ true) q d in
        let found = (bounded_match_iff r before (c ∷ t)).1 (u, v, sym f, m, here) in
        ground (arith, found, ap (ends_word before) q, ap starts_word f, b)
    | inr (a', q, f) ↦
        let b' = subst (λ w. boundary (ends_word before w) (starts_word (u ++ v)) ≡ true) q b in
        let d' =
          subst (λ w. boundary (ends_word (ends_word before w) u) (starts_word v) ≡ true) q d in
        ground (arith, (bounded_from_iff r (is_word c) t).1 (a', u, v, f, m, b', d'))
  ],
)

-- `bounded_search` finds exactly the matches that stand between two boundaries.
pub bounded_search_iff :
    (r : Regex) (t : List ℕ) → (bounded_search r t ≡ true) ↔ MatchesBounded r false t
unfolding bounded_search
bounded_search_iff r t = bounded_from_iff r false t
