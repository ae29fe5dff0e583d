-- ===== src/Regex/Matching.antt =====
-- What it means for an expression to match a text, and that the three tests decide it.
use mathlib.Core.Path.{subst}
use autonomic.Common.{
  ℕ, Bool, true, List, [], ◌∷◌, ◌++◌, ◌≡◌, refl, sym, ap, ◌∙◌, arith, ◌⊎◌, inl, inr, ◌↔◌,
  Bool-cases,
}
use autonomic.Regex.{
  Regex, never, empty, char, seq, alt, star, nullable, derive, fullmatch, match, search_in,
}

-- The language of an expression.
pub data Matches : Regex → List ℕ → Type 0 where
  nothing : Matches empty []
  one : {p : ℕ → Bool} (c : ℕ) → p c ≡ true → Matches (char p) (c ∷ [])
  both :
      {r s : Regex} {v : List ℕ} (t u : List ℕ)
      → Matches r t
      → Matches s u
      → v ≡ t ++ u
      → Matches (seq r s) v
  left : {r s : Regex} {t : List ℕ} → Matches r t → Matches (alt r s) t
  right : {r s : Regex} {t : List ℕ} → Matches s t → Matches (alt r s) t
  stop : {r : Regex} → Matches (star r) []
  more :
      {r : Regex} {v : List ℕ} (t u : List ℕ)
      → Matches r t
      → Matches (star r) u
      → v ≡ t ++ u
      → Matches (star r) v

never-inv : {t : List ℕ} → Matches never t → ⊥
never-inv m = elim m [ ]

empty-inv : {t : List ℕ} → Matches empty t → t ≡ []
empty-inv nothing = refl

pub seq-inv :
    {r s : Regex} {v : List ℕ}
    → Matches (seq r s) v
    → (t : List ℕ) × (u : List ℕ) × Matches r t × Matches s u × (v ≡ t ++ u)
seq-inv (both t u m n e) = (t, u, m, n, e)

alt-inv : {r s : Regex} {t : List ℕ} → Matches (alt r s) t → Matches r t ⊎ Matches s t
alt-inv (left m) = inl m
alt-inv (right m) = inr m

pub nullable_sound : (r : Regex) → nullable r ≡ true → Matches r []
unfolding nullable
nullable_sound never h = cc
nullable_sound empty h = nothing
nullable_sound (char p) h = cc
nullable_sound (seq r s) h =
    both [] [] (nullable_sound r (ground arith)) (nullable_sound s (ground arith)) refl
nullable_sound (alt r s) h = elim (Bool-cases (nullable r)) [
  | inl t ↦ left (nullable_sound r t)
  | inr f ↦ right (nullable_sound s (ground arith))
]
nullable_sound (star r) h = stop

List-cases : {A : Type 0} (t : List A) → (t ≡ []) ⊎ ((x : A) × (t' : List A) × (t ≡ x ∷ t'))
List-cases [] = inl refl
List-cases (x ∷ t) = inr (x, t, refl)

pub append-eq-nil : {A : Type 0} (t u : List A) → t ++ u ≡ [] → (t ≡ []) × (u ≡ [])
append-eq-nil [] u h = (refl, h)
append-eq-nil (x ∷ t) u h = cc

pub nullable_complete : {r : Regex} {t : List ℕ} → Matches r t → t ≡ [] → nullable r ≡ true
unfolding nullable
nullable_complete nothing h = refl
nullable_complete (one c q) h = cc
nullable_complete (both t u m n e) h =
    let split = append-eq-nil t u (sym e ∙ h) in
    rw (nullable_complete m split.0) (nullable_complete n split.1)
nullable_complete (left m) h = ground (arith, nullable_complete m h)
nullable_complete (right m) h = ground (arith, nullable_complete m h)
nullable_complete stop h = refl
nullable_complete (more t u m n e) h = refl

-- A match behind the first byte of the first part is a match of the whole.
seq_behind :
    {r s d : Regex} (c : ℕ) {t : List ℕ}
    → ((u : List ℕ) → Matches d u → Matches r (c ∷ u))
    → Matches (seq d s) t
    → Matches (seq r s) (c ∷ t)
seq_behind c step m =
    let (u, v, m₁, m₂, e) = seq-inv m in both (c ∷ u) v (step u m₁) m₂ (ap (λ w. c ∷ w) e)

pub derive_sound : (c : ℕ) (r : Regex) {t : List ℕ} → Matches (derive c r) t → Matches r (c ∷ t)
unfolding derive
derive_sound c never m = absurd (never-inv m)
derive_sound c empty m = absurd (never-inv m)
derive_sound c (char p) {t} m = elim (Bool-cases (p c)) [
  | inl e ↦ subst (λ v. Matches (char p) (c ∷ v)) (sym (empty-inv (rw e at m))) (one c e)
  | inr e ↦ absurd (never-inv (rw e at m))
]
derive_sound c (seq r s) {t} m = elim (Bool-cases (nullable r)) [
  | inl e ↦ elim (alt-inv (rw e at m)) [
    | inl n ↦ seq_behind c (λ u k. derive_sound c r k) n
    | inr n ↦ both [] (c ∷ t) (nullable_sound r e) (derive_sound c s n) refl
  ]
  | inr e ↦ seq_behind c (λ u k. derive_sound c r k) (rw e at m)
]
derive_sound c (alt r s) m = elim (alt-inv m) [
  | inl n ↦ left (derive_sound c r n)
  | inr n ↦ right (derive_sound c s n)
]
derive_sound c (star r) m =
    let (t, u, m₁, m₂, e) = seq-inv m in more (c ∷ t) u (derive_sound c r m₁) m₂ (ap (λ w. c ∷ w) e)

-- Where a first part of `c ∷ w` ends: at once, or behind the byte `c`.
pub head_split :
    (t u : List ℕ) {v w : List ℕ} {c : ℕ}
    → v ≡ t ++ u
    → v ≡ c ∷ w
    → ((t ≡ []) × (u ≡ c ∷ w)) ⊎ ((t' : List ℕ) × (t ≡ c ∷ t') × (w ≡ t' ++ u))
head_split [] u e h = inl (refl, cc)
head_split (d ∷ t) u e h = inr (t, cc, cc)

pub derive_complete :
    (c : ℕ) {r : Regex} {v : List ℕ}
    → Matches r v
    → (w : List ℕ) → v ≡ c ∷ w
    → Matches (derive c r) w
unfolding derive
derive_complete c nothing w h = cc
derive_complete c (one {p} d q) w h =
    let e : w ≡ [] = cc in
    let pc : p c ≡ true = cc in subst (Matches (derive c (char p))) (sym e) (rw pc nothing)
derive_complete c (both {r} {s} t u m n e) w h = elim (head_split t u e h) [
  | inl (q, f) ↦ rw (nullable_complete m q) (right (derive_complete c n w f))
  | inr (t', q, f) ↦ elim (Bool-cases (nullable r)) [
    | inl b ↦ rw b (left (both t' u (derive_complete c m t' q) n f))
    | inr b ↦ rw b (both t' u (derive_complete c m t' q) n f)
  ]
]
derive_complete c (left m) w h = left (derive_complete c m w h)
derive_complete c (right m) w h = right (derive_complete c m w h)
derive_complete c stop w h = cc
derive_complete c (more t u m n e) w h = elim (head_split t u e h) [
  | inl (q, f) ↦ derive_complete c n w f
  | inr (t', q, f) ↦ both t' u (derive_complete c m t' q) n f
]

-- `re.fullmatch` finds exactly the matches.
pub fullmatch_iff : (r : Regex) (t : List ℕ) → (fullmatch r t ≡ true) ↔ Matches r t
unfolding fullmatch
fullmatch_iff r [] = (nullable_sound r, λ m. nullable_complete m refl)
fullmatch_iff r (c ∷ t) = (
  λ h. derive_sound c r ((fullmatch_iff (derive c r) t).0 h),
  λ m. (fullmatch_iff (derive c r) t).1 (derive_complete c m t refl),
)

-- The text begins with a match.
abbrev pub MatchesPrefix : Regex → List ℕ → Type 0
MatchesPrefix r t = (u : List ℕ) × (v : List ℕ) × (t ≡ u ++ v) × Matches r u

pub match_iff : (r : Regex) (t : List ℕ) → (match r t ≡ true) ↔ MatchesPrefix r t
unfolding match
match_iff r [] = (
  λ h. ([], [], refl, nullable_sound r h),
  λ (u, v, e, m). nullable_complete m (append-eq-nil u v (sym e)).0,
)
match_iff r (c ∷ t) = (
  λ h. elim (Bool-cases (nullable r)) [
    | inl q ↦ ([], c ∷ t, refl, nullable_sound r q)
    | inr q ↦
        let (u, v, e, m) = (match_iff (derive c r) t).0 (ground (arith, q)) in
        (c ∷ u, v, ap (λ w. c ∷ w) e, derive_sound c r m)
  ],
  λ (u, v, e, m). elim (head_split u v e refl) [
    | inl (q, f) ↦ rw (nullable_complete m q)
    | inr (u', q, f) ↦
        ground (arith, (match_iff (derive c r) t).1 (u', v, f, derive_complete c m u' q))
  ],
)

-- The text holds a match, between what stands before it and what stands behind it.
abbrev pub MatchesInside : Regex → List ℕ → Type 0
MatchesInside r t = (a : List ℕ) × (u : List ℕ) × (b : List ℕ) × (t ≡ a ++ (u ++ b)) × Matches r u

pub search_in_iff : (r : Regex) (t : List ℕ) → (search_in r t ≡ true) ↔ MatchesInside r t
unfolding search_in
search_in_iff r [] = (
  λ h. let (u, v, e, m) = (match_iff r []).0 h in ([], u, v, e, m),
  λ (a, u, b, e, m). (match_iff r []).1 (u, b, sym (append-eq-nil a (u ++ b) (sym e)).1, m),
)
search_in_iff r (c ∷ t) = (
  λ h. elim (Bool-cases (match r (c ∷ t))) [
    | inl q ↦ let (u, v, e, m) = (match_iff r (c ∷ t)).0 q in ([], u, v, e, m)
    | inr q ↦
        let (a, u, b, e, m) = (search_in_iff r t).0 (ground (arith, q)) in
        (c ∷ a, u, b, ap (λ w. c ∷ w) e, m)
  ],
  λ (a, u, b, e, m). elim (head_split a (u ++ b) e refl) [
    | inl (q, f) ↦ ground (arith, (match_iff r (c ∷ t)).1 (u, b, sym f, m))
    | inr (a', q, f) ↦ ground (arith, (search_in_iff r t).1 (a', u, b, f, m))
  ],
)
