-- ===== src/Common/Lists.antt =====
-- Lists measured by native numbers, tests over lists, and predicates by recursion.
use Prim.Native.Nat.{ℕ, zero, suc, ◌+◌, ◌-◌, ◌≤◌, min}
use mathlib.Core.Path.{◌≡◌, refl, sym, ap, subst}
use mathlib.Core.Logic.{◌↔◌, ◌⊎◌, inl, inr}
use mathlib.Core.Bool.{Bool, true, false, ◌&&◌, ◌||◌}
use mathlib.Core.List.{List, [], ◌∷◌, ◌++◌}
use native.Mathlib.Omega.{arith}
use autonomic.Common.Tests.{Comparable, ◌==◌, if◌then◌else◌, Bool-cases}

module _ {ℓ} {A : Type ℓ} where
  abbrev pub length : List A → ℕ
  length [] = 0
  length (x ∷ xs) = suc (length xs)

  abbrev pub take : ℕ → List A → List A
  take zero xs = []
  take (suc n) [] = []
  take (suc n) (x ∷ xs) = x ∷ take n xs

  abbrev pub drop : ℕ → List A → List A
  drop zero xs = xs
  drop (suc n) [] = []
  drop (suc n) (x ∷ xs) = drop n xs

  pub length-append : (xs ys : List A) → length (xs ++ ys) ≡ length xs + length ys
  length-append [] ys = omega arith
  length-append (x ∷ xs) ys = omega (arith, length-append xs ys)

  pub take-append-drop : (n : ℕ) (xs : List A) → take n xs ++ drop n xs ≡ xs
  take-append-drop zero xs = refl
  take-append-drop (suc n) [] = refl
  take-append-drop (suc n) (x ∷ xs) = ap (λ ys. x ∷ ys) (take-append-drop n xs)

  pub length-take : (n : ℕ) (xs : List A) → length (take n xs) ≡ min n (length xs)
  length-take zero xs = omega arith
  length-take (suc n) [] = omega arith
  length-take (suc n) (x ∷ xs) = omega (arith, length-take n xs)

  pub length-drop : (n : ℕ) (xs : List A) → length (drop n xs) ≡ length xs - n
  length-drop zero xs = omega arith
  length-drop (suc n) [] = omega arith
  length-drop (suc n) (x ∷ xs) = omega (arith, length-drop n xs)

module _ {ℓ} {A : Type ℓ} where
  pub take_all : (n : ℕ) (xs : List A) → length xs ≤ n → take n xs ≡ xs
  take_all zero [] h = refl
  take_all zero (x ∷ xs) h = elim h [ ]
  take_all (suc n) [] h = refl
  take_all (suc n) (x ∷ xs) h = ap (λ ys. x ∷ ys) (take_all n xs (omega arith))

  pub take-append_left : (n : ℕ) (xs ys : List A) → n ≤ length xs → take n (xs ++ ys) ≡ take n xs
  take-append_left zero xs ys h = refl
  take-append_left (suc n) [] ys h = elim h [ ]
  take-append_left (suc n) (x ∷ xs) ys h =
      ap (λ zs. x ∷ zs) (take-append_left n xs ys (omega arith))

-- `not xs`
abbrev pub is_empty {ℓ} : {A : Type ℓ} → List A → Bool
is_empty [] = true
is_empty (x ∷ xs) = false

-- Python's `any` and `all` over a generator, and a comprehension's filter.
module _ {ℓ} {A : Type ℓ} (p : A → Bool) where
  abbrev pub any : List A → Bool
  any [] = false
  any (x ∷ xs) = p x || any xs

  abbrev pub all : List A → Bool
  all [] = true
  all (x ∷ xs) = p x && all xs

  abbrev pub select : List A → List A
  select [] = []
  select (x ∷ xs) = let rest = select xs in if p x then x ∷ rest else rest

abbrev pub All {ℓ κ} : {A : Type ℓ} → (A → Type κ) → List A → Type κ
All P [] = Unit
All P (x ∷ xs) = P x × All P xs

-- Membership, as a place in the list.
abbrev pub In : {A : Type 0} → A → List A → Type 0
In a [] = ⊥
In a (x ∷ xs) = (x ≡ a) ⊎ In a xs

module _ {κ} {A : Type 0} (P : A → Type κ) where
  pub All-lookup : (xs : List A) {a : A} → All P xs → In a xs → P a
  All-lookup [] h m = absurd m
  All-lookup (x ∷ xs) h (inl e) = subst P e h.0
  All-lookup (x ∷ xs) h (inr m) = All-lookup xs h.1 m

  pub All-tabulate : (xs : List A) → ((a : A) → In a xs → P a) → All P xs
  All-tabulate [] f = tt
  All-tabulate (x ∷ xs) f = (f x (inl refl), All-tabulate xs (λ a m. f a (inr m)))

-- `a in xs`
module _ {A : Type 0} ⦃e : Comparable A⦄ where
  abbrev pub contains : List A → A → Bool
  contains [] a = false
  contains (x ∷ xs) a = x == a || contains xs a

  pub contains_iff : (xs : List A) (a : A) → (contains xs a ≡ true) ↔ In a xs
  contains_iff [] a = (λ h. cc, λ m. absurd m)
  contains_iff (x ∷ xs) a = (
    λ h. elim (Bool-cases (x == a)) [
      | inl t ↦ inl ((e.alike_iff x a).0 t)
      | inr t ↦ inr ((contains_iff xs a).0 (ground (arith, t)))
    ],
    elim [
      | inl q ↦ ground (arith, (e.alike_iff x a).1 q)
      | inr m ↦ ground (arith, (contains_iff xs a).1 m)
    ],
  )

module _ {κ} {A : Type 0} (P : A → Type κ) where
  pub All-append : (xs ys : List A) → All P xs → All P ys → All P (xs ++ ys)
  All-append [] ys h k = k
  All-append (x ∷ xs) ys h k = (h.0, All-append xs ys h.1 k)

pub is_empty-select_iff :
    {A : Type 0} (p : A → Bool) (xs : List A)
    → (is_empty (select p xs) ≡ true) ↔ All (λ x. p x ≡ false) xs
is_empty-select_iff p [] = (λ h. tt, λ h. refl)
is_empty-select_iff p (x ∷ xs) = (
  λ h. ground (arith, (is_empty-select_iff p xs).0),
  λ h. ground (arith, (is_empty-select_iff p xs).1),
)

pub contains-select :
    {A : Type 0} ⦃e : Comparable A⦄ (p : A → Bool) (xs : List A) (a : A)
    → contains (select p xs) a ≡ (contains xs a && p a)
contains-select p [] a = refl
contains-select ⦃e⦄ p (x ∷ xs) a = elim (Bool-cases (x == a)) [
  | inl same ↦ ground (arith, contains-select p xs a, ap p ((e.alike_iff x a).0 same))
  | inr other ↦ ground (arith, contains-select p xs a)
]

pub any-false_iff :
    {A : Type 0} (p : A → Bool) (xs : List A) → (any p xs ≡ false) ↔ All (λ x. p x ≡ false) xs
any-false_iff p [] = (λ h. tt, λ h. refl)
any-false_iff p (x ∷ xs) =
    (λ h. ground (arith, (any-false_iff p xs).0), λ h. ground (arith, (any-false_iff p xs).1))

pub is_empty-append :
    {A : Type 0} (xs ys : List A) → is_empty (xs ++ ys) ≡ (is_empty xs && is_empty ys)
is_empty-append [] ys = refl
is_empty-append (x ∷ xs) ys = refl

module _ {A : Type 0} {p : A → Bool} (P : A → Type 0) (same : (x : A) → (p x ≡ true) ↔ P x) where
  pub all_iff : (xs : List A) → (all p xs ≡ true) ↔ All P xs
  all_iff [] = (λ h. tt, λ h. refl)
  all_iff (x ∷ xs) = (
    λ h. ((same x).0 (ground arith), (all_iff xs).0 (ground arith)),
    λ (h, hs). ground (arith, (same x).1 h, (all_iff xs).1 hs),
  )

  pub any_iff : (xs : List A) → (any p xs ≡ true) ↔ ((x : A) × In x xs × P x)
  any_iff [] = (λ h. cc, λ (x, m, h). absurd m)
  any_iff (x ∷ xs) = (
    λ h. elim (Bool-cases (p x)) [
      | inl now ↦ (x, inl refl, (same x).0 now)
      | inr not_now ↦ let (y, m, later) = (any_iff xs).0 (ground arith) in (y, inr m, later)
    ],
    λ (y, m, h). elim m [
      | inl here ↦ ground (arith, (same x).1 (subst P (sym here) h))
      | inr later ↦ ground (arith, (any_iff xs).1 (y, later, h))
    ],
  )
