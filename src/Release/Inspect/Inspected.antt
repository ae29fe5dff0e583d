-- ===== src/Release/Inspect/Inspected.antt =====
-- What the inspection of the built packages comes to.
use autonomic.Common.{
  String, Bool, true, false, ◌&&◌, List, [], ◌∷◌, ◌≡◌, ◌↔◌, ◌⊎◌, refl, sym, ap, ◌∙◌, inl, inr,
  string_eq, contains, All, Bool-cases, List-cases,
}
use mathlib.Core.Path.{subst}
use autonomic.Release.Stage.{
  Entry, Contents, no_file, unreadable, entries, Archive, broken, archive, Stage, returned, raised,
}
use autonomic.Release.Build.{tar_files}
use autonomic.Release.Inspect.{is_accepted, inspect_packages}
use autonomic.Release.Inspect.Distributable.{IsDistributable, is_accepted_iff}

-- A package's tarball, the first that its pattern finds, opens, has contents.tar.gz among its
-- members, and that unpacks to these entries.
abbrev pub Unpacked : Stage → String → List Entry → Type 0
Unpacked s pkg files =
    (name : String) × (members : List String) × (rest : List (String × Archive)) × (tar_files pkg
        s.tarballs
      ≡ (name, archive members (entries files)) ∷ rest)
    × (contains members "contents.tar.gz" ≡ true)

-- It unpacks to entries that are distributable.
abbrev pub IsInspected : Stage → String → Type 0
IsInspected s pkg = (files : List Entry) × (Unpacked s pkg files × IsDistributable pkg files)

-- One round of the loop: the flag takes up the assertions about the unpacked files, or the package
-- has none, and then the command stops or the flag falls.
abbrev Round : String → List String → Stage → Type 0
Round pkg pkgs s =
    ((files : List Entry) × (Unpacked s pkg files
        × ((passed : Bool)
            → inspect_packages (pkg ∷ pkgs) passed s
              ≡ inspect_packages pkgs (passed && is_accepted pkg files) s)))
    ⊎ ((¬ ((files : List Entry) × Unpacked s pkg files))
        × ((passed : Bool)
            → (inspect_packages (pkg ∷ pkgs) passed s ≡ returned 1)
              ⊎ ((inspect_packages (pkg ∷ pkgs) passed s ≡ raised)
                  ⊎ (inspect_packages (pkg ∷ pkgs) passed s ≡ inspect_packages pkgs false s))))

missing_contents :
    (pkg name : String) (pkgs : List String) (s : Stage) (members : List String)
    (contents : Contents) (rest : List (String × Archive))
    → tar_files pkg s.tarballs ≡ (name, archive members contents) ∷ rest
    → contains members "contents.tar.gz" ≡ false
    → Round pkg pkgs s
unfolding inspect_packages
missing_contents pkg name pkgs s members contents rest found missing = inr (
  λ (files, (n, m, r, e, c)). cc (found, e, c, missing),
  λ passed. inr (inr (rw (found, missing, inspect_packages) refl)),
)

round : (pkg : String) (pkgs : List String) (s : Stage) → Round pkg pkgs s
unfolding inspect_packages
round pkg pkgs s = elim (List-cases (tar_files pkg s.tarballs)) [
  | inl none_found ↦ inr (
    λ (files, (name, members, rest, e, c)). cc (none_found, e),
    λ passed. inl (rw (none_found, inspect_packages) refl),
  )
  | inr ((name, broken), rest, found) ↦ inr (
    λ (files, (n, members, r, e, c)). cc (found, e),
    λ passed. inr (inl (rw (found, inspect_packages) refl)),
  )
  | inr ((name, archive members no_file), rest, found) ↦
      elim (Bool-cases (contains members "contents.tar.gz")) [
        | inl there ↦ inr (
          λ (files, (n, m, r, e, c)). cc (found, e),
          λ passed. inr (inr (rw (found, there, inspect_packages) refl)),
        )
        | inr missing ↦ missing_contents pkg name pkgs s members no_file rest found missing
      ]
  | inr ((name, archive members unreadable), rest, found) ↦
      elim (Bool-cases (contains members "contents.tar.gz")) [
        | inl there ↦ inr (
          λ (files, (n, m, r, e, c)). cc (found, e),
          λ passed. inr (inl (rw (found, there, inspect_packages) refl)),
        )
        | inr missing ↦ missing_contents pkg name pkgs s members unreadable rest found missing
      ]
  | inr ((name, archive members (entries files)), rest, found) ↦
      elim (Bool-cases (contains members "contents.tar.gz")) [
        | inl there ↦ inl (
          files,
          ((name, members, rest, found, there), λ passed. rw (found, there, inspect_packages) refl),
        )
        | inr missing ↦ missing_contents pkg name pkgs s members (entries files) rest found missing
      ]
]

Unpacked-unique :
    (s : Stage) (pkg : String) (files others : List Entry)
    → Unpacked s pkg files
    → Unpacked s pkg others
    → files ≡ others
Unpacked-unique s pkg files others (n, m, r, e, c) (n2, m2, r2, e2, c2) = cc (e, e2)

failed_stays : (pkgs : List String) (s : Stage) → ¬ (inspect_packages pkgs false s ≡ returned 0)
unfolding inspect_packages
failed_stays [] s h = cc h
failed_stays (pkg ∷ pkgs) s h = elim (round pkg pkgs s) [
  | inl (files, (unpacked, step)) ↦ failed_stays pkgs s (sym (step false) ∙ h)
  | inr (nothing, step) ↦ elim (step false) [
    | inl stopped ↦ cc (sym stopped ∙ h)
    | inr (inl stopped) ↦ cc (sym stopped ∙ h)
    | inr (inr fell) ↦ failed_stays pkgs s (sym fell ∙ h)
  ]
]

-- The inspection passes exactly if each package's first tarball opens, has contents.tar.gz, and
-- that unpacks to distributable entries: a failed assertion about an earlier package is not
-- forgotten behind a later one that is in order.
pub inspect_packages_iff :
    (pkgs : List String) (s : Stage)
    → (inspect_packages pkgs true s ≡ returned 0) ↔ All (IsInspected s) pkgs
unfolding inspect_packages
inspect_packages_iff [] s = (λ h. tt, λ h. refl)
inspect_packages_iff (pkg ∷ pkgs) s = elim (round pkg pkgs s) [
  | inl (files, (unpacked, step)) ↦
      let accepted = is_accepted_iff pkg files in
      let later = inspect_packages_iff pkgs s in
      elim (Bool-cases (is_accepted pkg files)) [
        | inl good ↦
            let on : inspect_packages (pkg ∷ pkgs) true s ≡ inspect_packages pkgs true s =
              step true ∙ ap (λ b. inspect_packages pkgs b s) good in
            (
              λ h. ((files, (unpacked, accepted.0 good)), later.0 (sym on ∙ h)),
              λ (ok, rest). on ∙ later.1 rest,
            )
        | inr bad ↦
            let off : inspect_packages (pkg ∷ pkgs) true s ≡ inspect_packages pkgs false s =
              step true ∙ ap (λ b. inspect_packages pkgs b s) bad in
            (
              λ h. absurd (failed_stays pkgs s (sym off ∙ h)),
              λ ((others, (unpacked2, ok)), rest).
                  let same = Unpacked-unique s pkg others files unpacked2 unpacked in
                  let wrong : is_accepted pkg files ≡ true =
                    accepted.1 (subst (IsDistributable pkg) same ok) in
                  cc (wrong, bad),
            )
      ]
  | inr (nothing, step) ↦ (
    λ h. elim (step true) [
      | inl stopped ↦ cc (sym stopped ∙ h)
      | inr (inl stopped) ↦ cc (sym stopped ∙ h)
      | inr (inr fell) ↦ absurd (failed_stays pkgs s (sym fell ∙ h))
    ],
    λ ((files, (unpacked, good)), rest). absurd (nothing (files, unpacked)),
  )
]
