-- ===== src/Common/Places.antt =====
-- Membership in joined, filtered and mapped lists.
use mathlib.Core.Path.{◌≡◌, refl, sym, ap, subst}
use mathlib.Core.Logic.{◌⊎◌, inl, inr}
use mathlib.Core.Bool.{Bool, true}
use mathlib.Core.List.{List, [], ◌∷◌, ◌++◌, map}
use autonomic.Common.Tests.{Bool-cases}
use autonomic.Common.Lists.{In, select}

module _ {A : Type 0} (a : A) where
  pub In-append : (xs ys : List A) → In a (xs ++ ys) → In a xs ⊎ In a ys
  In-append [] ys m = inr m
  In-append (x ∷ xs) ys (inl e) = inl (inl e)
  In-append (x ∷ xs) ys (inr m) = elim (In-append xs ys m) [ inl l ↦ inl (inr l) | inr r ↦ inr r ]

  pub In-append_left : (xs ys : List A) → In a xs → In a (xs ++ ys)
  In-append_left (x ∷ xs) ys (inl e) = inl e
  In-append_left (x ∷ xs) ys (inr m) = inr (In-append_left xs ys m)
  In-append_left [] ys m = absurd m

  pub In-append_right : (xs ys : List A) → In a ys → In a (xs ++ ys)
  In-append_right [] ys m = m
  In-append_right (x ∷ xs) ys m = inr (In-append_right xs ys m)

pub In-map-select :
    {A B : Type 0} (g : A → B) (p : A → Bool) (xs : List A) (b : B)
    → In b (map g (select p xs))
    → (x : A) × In x xs × (p x ≡ true) × (g x ≡ b)
In-map-select g p [] b m = absurd m
In-map-select g p (x ∷ xs) b m =
    let later : In b (map g (select p xs)) → (y : _) × In y (x ∷ xs) × (p y ≡ true) × (g y ≡ b) =
      λ i. let (y, there, good, same) = In-map-select g p xs b i in (y, inr there, good, same) in
    elim (Bool-cases (p x)) [
      | inl good ↦
          let here : (g x ≡ b) ⊎ In b (map g (select p xs)) = rw good at m in
          elim here [ inl same ↦ (x, inl refl, good, same) | inr i ↦ later i ]
      | inr bad ↦ later (rw bad at m)
    ]

pub In-select-map :
    {A B : Type 0} (g : A → B) (p : A → Bool) (xs : List A) (x : A)
    → In x xs
    → p x ≡ true
    → In (g x) (map g (select p xs))
In-select-map g p [] x m good = absurd m
In-select-map g p (y ∷ ys) x (inl e) good = rw (subst (λ z. p z ≡ true) (sym e) good) (inl (ap g e))
In-select-map g p (y ∷ ys) x (inr m) good = elim (Bool-cases (p y)) [
  | inl keep ↦ rw keep (inr (In-select-map g p ys x m good))
  | inr drop ↦ rw drop (In-select-map g p ys x m good)
]
