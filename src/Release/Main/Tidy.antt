-- ===== src/Release/Main/Tidy.antt =====
-- What holds of every stage, however the commands have run.
use mathlib.Core.Path.{subst}
use mathlib.Core.List.{append_assoc}
use text.Mathlib.TextEquality.{eq_iff}
use autonomic.Common.{
  String, true, List, [], ◌∷◌, ◌++◌, ◌≡◌, ◌≢◌, ◌⊎◌, refl, sym, ap, ◌∙◌, inl, inr, ◌==◌, nat_eq,
  string_eq, All, All-append, In, Bool-cases, Option-cases, alike-ne,
}
use autonomic.Common.Text.{codes}
use autonomic.Regex.{fullmatch}
use autonomic.Release.Packages.{topological_order, Repository}
use autonomic.Release.Check.{semantic_version}
use autonomic.Release.Rewrite.{rewrite_mix, is_coupled}
use autonomic.Release.Stage.{
  Files, Archive, Stage, empty_stage, has_versions, copied, read_mix, write_mix, add_package,
  stage_packages, is_core_version, command_stage,
}
use autonomic.Release.Build.{is_tar_of, copy_tar}

abbrev pub names_of {ℓ} : {A : Type ℓ} → List (String × A) → List String
names_of [] = []
names_of ((name, a) ∷ rest) = name ∷ names_of rest

abbrev pub Distinct : List String → Type 0
Distinct [] = Unit
Distinct (name ∷ names) = All (λ other. other ≢ name) names × Distinct names

-- The name is a tarball's of one of the packages.
abbrev pub IsTarName : String → Type 0
IsTarName name = (pkg : String) × In pkg topological_order × (is_tar_of pkg name ≡ true)

-- The packages are the first ones of the order, and the tarballs have different names, each of
-- which belongs to a package.
pub record IsTidy (s : Stage) : Type 0 where
  pub packages : (later : List String) × (names_of s.packages ++ later ≡ topological_order)
  pub distinct : Distinct (names_of s.tarballs)
  pub named : All IsTarName (names_of s.tarballs)

names_of-append :
    {A : Type 0} (xs ys : List (String × A)) → names_of (xs ++ ys) ≡ names_of xs ++ names_of ys
names_of-append [] ys = refl
names_of-append ((name, a) ∷ xs) ys = ap (λ ns. name ∷ ns) (names_of-append xs ys)

-- Staging goes on along the order.
stage_packages-IsTidy :
    (repo : Repository) (version : String) (pkgs : List String) (s : Stage)
    → names_of s.packages ++ pkgs ≡ topological_order
    → Distinct (names_of s.tarballs)
    → All IsTarName (names_of s.tarballs)
    → IsTidy (stage_packages repo version pkgs s).1
unfolding stage_packages
stage_packages-IsTidy repo version [] s e d n = record {
  packages = ([], e);
  distinct = d;
  named = n;
}
stage_packages-IsTidy repo version (pkg ∷ pkgs) s e d n =
    let next : (files : Files)
        → names_of (add_package pkg files s).packages ++ pkgs ≡ topological_order =
      λ files.
        ap (λ ns. ns ++ pkgs) (names_of-append s.packages ((pkg, files) ∷ []))
        ∙ append_assoc (names_of s.packages) (pkg ∷ []) pkgs
        ∙ e in
    let stopped : (files : Files) → IsTidy (add_package pkg files s) =
      λ files. record { packages = (pkgs, next files); distinct = d; named = n } in
    let files = copied (repo.package_at pkg) in
    elim (Option-cases (read_mix files)) [
      | inl no_mix ↦ rw (no_mix, stage_packages) (stopped files)
      | inr (content, found) ↦
          let written = write_mix (rewrite_mix (codes version) content) files in
          elim (Bool-cases (is_coupled (rewrite_mix (codes version) content))) [
            | inl coupled ↦ rw (found, stage_packages, coupled) (stopped files)
            | inr free ↦
                rw (found, stage_packages, free)
                  (stage_packages-IsTidy repo version pkgs (add_package pkg written s)
                    (next written) d n)
          ]
    ]

pub empty_stage-IsTidy : IsTidy empty_stage
empty_stage-IsTidy = record { packages = (topological_order, refl); distinct = tt; named = tt }

pub command_stage-IsTidy :
    (repo : Repository) (version : String) (s : Stage)
    → IsTidy s
    → IsTidy (command_stage repo version s).1
unfolding command_stage
command_stage-IsTidy repo version s tidy =
    elim (Bool-cases (fullmatch semantic_version (codes version))) [
      | inr odd ↦ rw odd tidy
      | inl semantic ↦ elim (Bool-cases (has_versions repo topological_order)) [
        | inr missing ↦ rw (semantic, missing) tidy
        | inl found ↦ elim (Bool-cases (is_core_version repo version)) [
          | inr other ↦ rw (semantic, found, other) tidy
          | inl core ↦
              rw (semantic, found, core)
                (stage_packages-IsTidy repo version topological_order empty_stage refl tt tt)
        ]
      ]
    ]

-- A copy of a tarball puts its name behind the others, or where it is already.
names_of-copy_tar :
    (name : String) (tar : Archive) (tars : List (String × Archive))
    → (names_of (copy_tar name tar tars) ≡ names_of tars)
      ⊎ ((names_of (copy_tar name tar tars) ≡ names_of tars ++ (name ∷ []))
          × All (λ other. other ≢ name) (names_of tars))
unfolding copy_tar
names_of-copy_tar name tar [] = inr (refl, tt)
names_of-copy_tar name tar ((other, old) ∷ tars) = elim (Bool-cases (other == name)) [
  | inl same ↦ rw same (inl (ap (λ n. n ∷ names_of tars) (sym ((eq_iff other name).0 same))))
  | inr differs ↦ rw differs (elim (names_of-copy_tar name tar tars) [
    | inl e ↦ inl (ap (λ ns. other ∷ ns) e)
    | inr (e, fresh) ↦ inr (ap (λ ns. other ∷ ns) e, (alike-ne string_eq other name differs, fresh))
  ])
]

Distinct-append :
    (names : List String) (name : String)
    → Distinct names
    → All (λ other. other ≢ name) names
    → Distinct (names ++ (name ∷ []))
Distinct-append [] name d fresh = (tt, tt)
Distinct-append (n ∷ names) name (first, d) (ne, fresh) = (
  All-append (λ other. other ≢ n) names (name ∷ []) first ((λ e. ne (sym e)), tt),
  Distinct-append names name d fresh,
)

pub copy_tar-IsTidy :
    (pkg name : String) (tar : Archive) (s : Stage)
    → In pkg topological_order
    → is_tar_of pkg name ≡ true
    → IsTidy s
    → IsTidy (record s { tarballs = copy_tar name tar s.tarballs })
copy_tar-IsTidy pkg name tar s listed mine tidy = elim (names_of-copy_tar name tar s.tarballs) [
  | inl e ↦ record {
    packages = tidy.packages;
    distinct = subst Distinct (sym e) tidy.distinct;
    named = subst (All IsTarName) (sym e) tidy.named;
  }
  | inr (e, fresh) ↦ record {
    packages = tidy.packages;
    distinct =
        subst Distinct (sym e) (Distinct-append (names_of s.tarballs) name tidy.distinct fresh);
    named = subst (All IsTarName) (sym e) (
        All-append IsTarName (names_of s.tarballs) (name ∷ []) tidy.named
          ((pkg, listed, mine), tt));
  }
]
