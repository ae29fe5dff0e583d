-- ===== src/Release/Stage/Written.antt =====
-- The copy of a package has its mix.exs, with the text of the source.
use autonomic.Common.{
  ℕ, String, true, false, some, List, [], ◌∷◌, ◌≡◌, refl, ap, inl, inr, arith, string_eq, map,
  contains, contains_iff, Bool-cases,
}
use text.Mathlib.TextEquality.{eq_iff}
use mathlib.Core.Path.{subst}
use autonomic.Release.Copy.{Folder, folder, is_copied, copy_package_files}
use autonomic.Release.Copy.Staged.{HasFile, Listed, copy_package_files_iff}
use autonomic.Release.Packages.{Package, files_of, has_file, mix_text}
use autonomic.Release.Stage.{FilePath, is_mix, copied, read_mix, version_of}

is_mix-eq : (path : FilePath) → is_mix path ≡ true → path ≡ ([], "mix.exs")
is_mix-eq ([], name) h = ap (λ n. ([], n)) ((eq_iff name "mix.exs").0 h)
is_mix-eq (dir ∷ dirs, name) h = cc

read_mix-Listed :
    (p : Package) (paths : List FilePath)
    → Listed [] "mix.exs" paths
    → read_mix (map (λ path. (path, p.read path.0 path.1)) paths) ≡ some (mix_text p)
unfolding read_mix
read_mix-Listed p [] m = absurd m
read_mix-Listed p (path ∷ paths) m = elim (Bool-cases (is_mix path)) [
  | inl here ↦ rw here (ap (λ q. some (p.read q.0 q.1)) (is_mix-eq path here))
  | inr other ↦ elim m [
    | inl same ↦ cc (subst (λ q. is_mix q ≡ false) same other)
    | inr later ↦ rw other (read_mix-Listed p paths later)
  ]
]

HasFile-top :
    (tree : Folder) (name : String) → contains (files_of tree) name ≡ true → HasFile tree [] name
HasFile-top (folder files dirs) name h = inl (refl, (contains_iff files name).0 h)

pub read_mix-copied :
    (p : Package) → has_file p "mix.exs" ≡ true → read_mix (copied p) ≡ some (mix_text p)
unfolding copied is_copied
read_mix-copied p h =
    read_mix-Listed p (copy_package_files p.tree)
      ((copy_package_files_iff p.tree [] "mix.exs").1 (HasFile-top p.tree "mix.exs" h, tt, refl))

-- A package with a version has a mix.exs.
pub has_file-version_of :
    (p : Package) (version : List ℕ) → version_of p ≡ some version → has_file p "mix.exs" ≡ true
unfolding version_of
has_file-version_of p version h = ground arith
