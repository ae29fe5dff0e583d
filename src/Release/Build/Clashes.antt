-- ===== src/Release/Build/Clashes.antt =====
-- Which tarballs belong to which package.
use autonomic.Common.{
  ℕ, String, ◌<>◌, Bool, true, false, ◌||◌, not, List, [], ◌∷◌, ◌≡◌, refl, sym, ap, ◌∙◌, inl, inr,
  arith, ◌==◌, nat_eq, string_eq, select, All, Bool-cases, nat_beq_iff,
}
use text.Mathlib.TextEquality.{eq_iff}
use autonomic.Common.Text.{codes, starts_with}
use autonomic.Release.Stage.{Archive}
use autonomic.Release.Build.{is_tar_of, tar_files, copy_tar}

-- The two texts differ before one of them ends.
abbrev pub clash : List ℕ → List ℕ → Bool
clash [] t = false
clash (c ∷ cs) [] = false
clash (c ∷ cs) (d ∷ ds) = not (c == d) || clash cs ds

clash-starts_with :
    (p q t : List ℕ) → clash p q ≡ true → starts_with p t ≡ true → starts_with q t ≡ false
clash-starts_with [] q t h s = cc
clash-starts_with (c ∷ cs) [] t h s = cc
clash-starts_with (c ∷ cs) (d ∷ ds) [] h s = refl
clash-starts_with (c ∷ cs) (d ∷ ds) (e ∷ es) h s =
    ground (arith, clash-starts_with cs ds es, nat_beq_iff c d, nat_beq_iff c e, nat_beq_iff d e)

-- No name is a tarball's of both packages.
abbrev pub Clashes : String → String → Type 0
Clashes pkg other =
    (clash (codes (pkg <> "-")) (codes (other <> "-")) ≡ true)
    × (clash (codes (other <> "-")) (codes (pkg <> "-")) ≡ true)

pub other_tar :
    (pkg other name : String)
    → Clashes pkg other
    → is_tar_of pkg name ≡ true
    → is_tar_of other name ≡ false
unfolding is_tar_of
other_tar pkg other name h t =
    let apart : starts_with (codes (other <> "-")) (codes name) ≡ false =
      clash-starts_with _ (codes (other <> "-")) (codes name) h.0 (ground arith) in
    rw apart refl

pub tar_files-copy_tar_ne :
    (pkg name : String) (tar : Archive) (tars : List (String × Archive))
    → is_tar_of pkg name ≡ false
    → tar_files pkg (copy_tar name tar tars) ≡ tar_files pkg tars
unfolding tar_files copy_tar
tar_files-copy_tar_ne pkg name tar [] h = rw h refl
tar_files-copy_tar_ne pkg name tar ((other, old) ∷ tars) h = elim (Bool-cases (other == name)) [
  | inl same ↦
      let also : is_tar_of pkg other ≡ false =
        ap (is_tar_of pkg) ((eq_iff other name).0 same) ∙ h in
      rw (same, h, also) refl
  | inr ne ↦ rw (ne, tar_files-copy_tar_ne pkg name tar tars h) refl
]

pub tar_files-copy_tar :
    (pkg name : String) (tar : Archive) (tars : List (String × Archive))
    → is_tar_of pkg name ≡ true
    → tar_files pkg tars ≡ []
    → tar_files pkg (copy_tar name tar tars) ≡ (name, tar) ∷ []
unfolding tar_files copy_tar
tar_files-copy_tar pkg name tar [] h none_yet = rw h refl
tar_files-copy_tar pkg name tar ((other, old) ∷ tars) h none_yet =
    elim (Bool-cases (is_tar_of pkg other)) [
      | inl listed ↦ cc (rw listed at none_yet)
      | inr unlisted ↦
          let rest : tar_files pkg tars ≡ [] = rw unlisted at none_yet in
          elim (Bool-cases (other == name)) [
            | inl same ↦ cc (h, unlisted, ap (is_tar_of pkg) ((eq_iff other name).0 same))
            | inr ne ↦ rw (ne, unlisted) (tar_files-copy_tar pkg name tar tars h rest)
          ]
    ]

abbrev pub Apart : List String → Type 0
Apart [] = Unit
Apart (pkg ∷ pkgs) = All (Clashes pkg) pkgs × Apart pkgs

select-head :
    {A : Type 0} (p : A → Bool) (xs : List A) (x : A) (ys : List A)
    → select p xs ≡ x ∷ ys
    → p x ≡ true
select-head p [] x ys h = cc
select-head p (z ∷ zs) x ys h = elim (Bool-cases (p z)) [
  | inl good ↦ let first : z ≡ x = cc (rw good at h) in ap p (sym first) ∙ good
  | inr bad ↦ select-head p zs x ys (rw bad at h)
]

pub tar_files-head :
    (pkg name : String) (tar : Archive) (tars rest : List (String × Archive))
    → tar_files pkg tars ≡ (name, tar) ∷ rest
    → is_tar_of pkg name ≡ true
unfolding tar_files
tar_files-head pkg name tar tars rest h =
    select-head (λ t. is_tar_of pkg t.0) tars (name, tar) rest h
