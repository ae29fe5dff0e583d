-- ===== src/Worker/Fetch/Cursors.antt =====
-- The variables of the loop: what they hold of the chunks that came before.
use mathlib.Core.List.{append_assoc, append-nil}
use autonomic.Common.{
  ℕ, String, Option, none, some, List, [], ◌∷◌, ◌++◌, ◌≡◌, ◌⊎◌, refl, sym, ap, ◌∙◌, inl, inr, ◌==◌,
  string_eq, Bool-cases,
}
use text.Mathlib.TextEquality.{eq_iff}
use autonomic.Worker.Client.{Answer, value, failure, Failure}
use autonomic.Worker.Fetch.{digest_or, total_or, joined}

pub Answer-cases :
    {A : Type 0} (a : Answer A) → ((e : Failure) × (a ≡ failure e)) ⊎ ((v : A) × (a ≡ value v))
Answer-cases (failure e) = inl (e, refl)
Answer-cases (value v) = inr (v, refl)

joined-append : (cs ds : List (List ℕ)) → joined (cs ++ ds) ≡ joined cs ++ joined ds
joined-append [] ds = refl
joined-append (c ∷ cs) ds =
    ap (λ t. c ++ t) (joined-append cs ds) ∙ sym (append_assoc c (joined cs) (joined ds))

pub joined-snoc : (cs : List (List ℕ)) (d : List ℕ) → joined (cs ++ (d ∷ [])) ≡ joined cs ++ d
joined-snoc cs d = joined-append cs (d ∷ []) ∙ ap (λ t. joined cs ++ t) (append-nil d)

pub digest_or_same : (d : String) → digest_or (some d) d ≡ d
digest_or_same d = elim (Bool-cases (d == "")) [ inl q ↦ rw q refl | inr q ↦ rw q refl ]

pub digest_fits : (e d : String) → digest_or (some e) d ≡ d → (e ≡ "") ⊎ (e ≡ d)
digest_fits e d h = elim (Bool-cases (e == "")) [
  | inl q ↦ inl ((eq_iff e "").0 q)
  | inr q ↦ inr (rw q at h)
]

pub digest_back :
    (o : Option String) (b d : String) → b ≡ digest_or o b → (b ≡ "") ⊎ (b ≡ d) → digest_or o d ≡ d
digest_back none b d same fits = refl
digest_back (some e) b d same fits = elim (Bool-cases (e == "")) [
  | inl q ↦ rw q refl
  | inr q ↦
      let kept : b ≡ e = rw q at same in
      elim fits [
        | inl nothing ↦ cc (q, (eq_iff e "").1 (sym kept ∙ nothing))
        | inr agreed ↦ rw q (sym kept ∙ agreed)
      ]
]

pub total_back : (o : Option ℕ) (t n : ℕ) → t ≡ total_or o t → t ≡ n → total_or o n ≡ n
total_back none t n same fits = refl
total_back (some m) t n same fits = sym same ∙ fits
