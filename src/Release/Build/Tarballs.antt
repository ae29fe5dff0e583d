-- ===== src/Release/Build/Tarballs.antt =====
-- Each package's tarball is the one that was built from its staged files.
use autonomic.Common.{
  String, true, List, [], ◌∷◌, ◌≡◌, refl, sym, ap, ◌∙◌, inl, inr, ◌==◌, nat_eq, string_eq, All,
  Bool-cases, List-cases, nat_beq_iff,
}
use autonomic.Release.Packages.{topological_order, Repository}
use autonomic.Release.Stage.{Files, Archive, Stage, returned, command_stage}
use autonomic.Release.Stage.Complete.{command_stage_iff}
use autonomic.Release.Stage.Success.{on_success-returned}
use autonomic.Release.Build.{
  Hex, is_tar_of, tar_files, copy_tar, files_at, build_packages, command_build,
}
use autonomic.Release.Build.Clashes.{
  Clashes, other_tar, tar_files-copy_tar_ne, tar_files-copy_tar, tar_files-head, Apart,
}

module _ (hex : Hex) where
  -- What `mix hex.build` has made of a package's files, and the first of its tarballs.
  abbrev pub BuiltFirst : String → Files → String → Archive → Type 0
  BuiltFirst pkg files name tar =
      ((hex pkg files).code ≡ 0)
      × (rest : List (String × Archive)) × (tar_files pkg (hex pkg files).tarballs
          ≡ (name, tar) ∷ rest)

  after_tar : String → Archive → Stage → Stage
  after_tar name tar s = record s { tarballs = copy_tar name tar s.tarballs }

  build_packages-inv :
      (pkg : String) (pkgs : List String) (s out : Stage)
      → build_packages hex (pkg ∷ pkgs) s ≡ (returned 0, out)
      → (name : String) × (tar : Archive) × BuiltFirst pkg (files_at pkg s.packages) name tar
        × (build_packages hex pkgs (after_tar name tar s) ≡ (returned 0, out))
  unfolding build_packages after_tar
  build_packages-inv pkg pkgs s out h =
      let built = hex pkg (files_at pkg s.packages) in
      elim (Bool-cases (built.code == 0)) [
        | inr failed ↦
            let zero_code : built.code ≡ 0 = cc (rw (failed, build_packages) at h) in
            cc (failed, (nat_beq_iff built.code 0).1 zero_code)
        | inl good ↦ elim (List-cases (tar_files pkg built.tarballs)) [
          | inl missing ↦ cc (rw (good, missing, build_packages) at h)
          | inr ((name, tar), tars, found) ↦ (
            name,
            tar,
            ((nat_beq_iff _ _).0 good, tars, found),
            rw (good, found, build_packages) at h,
          )
        ]
      ]

  -- The tarballs of a package that none of the loop's names can be taken for.
  tar_files-build :
      (q : String) (pkgs : List String) (s out : Stage)
      → All (Clashes q) pkgs
      → build_packages hex pkgs s ≡ (returned 0, out)
      → tar_files q out.tarballs ≡ tar_files q s.tarballs
  unfolding build_packages after_tar
  tar_files-build q [] s out apart h = ap (λ r. tar_files q r.1.tarballs) (sym h)
  tar_files-build q (pkg ∷ pkgs) s out (c, cs) h =
      let (name, tar, (good, tars, found), rest) = build_packages-inv pkg pkgs s out h in
      let mine =
        tar_files-head pkg name tar (hex pkg (files_at pkg s.packages)).tarballs tars found in
      tar_files-build q pkgs (after_tar name tar s) out cs rest
      ∙ tar_files-copy_tar_ne q name tar s.tarballs (other_tar pkg q name (c.1, c.0) mine)

  -- A package has exactly one tarball in the stage, the first that was built from its files.
  abbrev pub IsBuilt : Stage → List (String × Files) → String → Type 0
  IsBuilt out packages pkg =
      (name : String) × (tar : Archive) × BuiltFirst pkg (files_at pkg packages) name tar
      × (tar_files pkg out.tarballs ≡ (name, tar) ∷ [])

  none_still :
      (pkg name : String) (tar : Archive) (s : Stage) (pkgs : List String)
      → is_tar_of pkg name ≡ true
      → All (Clashes pkg) pkgs
      → All (λ q. tar_files q s.tarballs ≡ []) pkgs
      → All (λ q. tar_files q (after_tar name tar s).tarballs ≡ []) pkgs
  unfolding after_tar
  none_still pkg name tar s [] mine cs empty = tt
  none_still pkg name tar s (q ∷ qs) mine (c, cs) (e, es) = (
    tar_files-copy_tar_ne q name tar s.tarballs (other_tar pkg q name c mine) ∙ e,
    none_still pkg name tar s qs mine cs es,
  )

  pub build_packages-IsBuilt :
      (pkgs : List String) (s out : Stage)
      → Apart pkgs
      → All (λ pkg. tar_files pkg s.tarballs ≡ []) pkgs
      → build_packages hex pkgs s ≡ (returned 0, out)
      → (out.packages ≡ s.packages) × All (IsBuilt out s.packages) pkgs
  unfolding build_packages after_tar
  build_packages-IsBuilt [] s out apart empty h = (ap (λ r. r.1.packages) (sym h), tt)
  build_packages-IsBuilt (pkg ∷ pkgs) s out (cs, apart) (e, es) h =
      let (name, tar, built, rest) = build_packages-inv pkg pkgs s out h in
      let mine =
        tar_files-head pkg name tar (hex pkg (files_at pkg s.packages)).tarballs built.1 built.2 in
      let (same, others) =
        build_packages-IsBuilt pkgs (after_tar name tar s) out apart
          (none_still pkg name tar s pkgs mine cs es) rest in
      (
        same,
        (
          (
            name,
            tar,
            built,
            tar_files-build pkg pkgs (after_tar name tar s) out cs rest
                ∙ tar_files-copy_tar pkg name tar s.tarballs mine e,
          ),
          others,
        ),
      )

topological_order-Apart : Apart topological_order
topological_order-Apart = (
  ((refl, refl), ((refl, refl), ((refl, refl), tt))),
  ((((refl, refl), ((refl, refl), tt))), ((((refl, refl), tt)), (tt, tt))),
)

-- A build succeeds only after a successful staging; it leaves the staged packages as they are, and
-- for each of the four packages exactly one tarball that its pattern finds: the first of those that
-- `mix hex.build`, which ended with 0, made from the package's staged files.
pub command_build-IsBuilt :
    (repo : Repository) (hex : Hex) (version : String) (s out : Stage)
    → command_build repo hex version s ≡ (returned 0, out)
    → (staged : Stage) × (command_stage repo version s ≡ (returned 0, staged))
      × (out.packages ≡ staged.packages)
      × All (IsBuilt hex out staged.packages) topological_order
unfolding command_build tar_files
command_build-IsBuilt repo hex version s out h =
    let (done, loop) =
      on_success-returned (command_stage repo version s) (build_packages hex topological_order) out
        h in
    let staged = (command_stage repo version s).1 in
    let ran : command_stage repo version s ≡ (returned 0, staged) = ap (λ o. (o, staged)) done in
    let (semantic, core, versions, free, stage) = (command_stage_iff repo version s staged).0 ran in
    let none_yet : staged.tarballs ≡ [] = ap (λ r. r.tarballs) stage in
    let (same, built) =
      build_packages-IsBuilt hex topological_order staged out topological_order-Apart
        (rw none_yet (refl, (refl, (refl, (refl, tt))))) loop in
    (staged, ran, same, built)
