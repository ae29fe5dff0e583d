-- ===== src/Release/Copy/Staged.antt =====
-- Which files of a package are staged.
use mathlib.Core.Path.{subst}
use mathlib.Core.List.{append_assoc, append-nil}
use autonomic.Common.{
  String, true, false, List, [], ◌∷◌, ◌++◌, ◌≡◌, ◌↔◌, ◌⊎◌, refl, sym, ap, ◌∙◌, inl, inr, arith,
  string_eq, map, any, select, contains, All, In, Bool-cases,
}
use autonomic.Common.Places.{
  In-append, In-append_left, In-append_right, In-map-select, In-select-map,
}
use autonomic.Release.Copy.{
  exclude_patterns, Folder, folder, Folders, no_more, entry, is_entered, is_copied, copy_folder,
  copy_folders, copy_package_files,
}

-- The folder has a file under the names of folders and of the file.
abbrev mutual
  pub HasFile : Folder → List String → String → Type 0
  HasFile (folder files dirs) path f = ((path ≡ []) × In f files) ⊎ HasIn dirs path f

  pub HasIn : Folders → List String → String → Type 0
  HasIn no_more path f = ⊥
  HasIn (entry d sub others) path f =
      ((below : List String) × (path ≡ d ∷ below) × HasFile sub below f) ⊎ HasIn others path f

abbrev Enters : List String → List String → Type 0
Enters rel [] = Unit
Enters rel (d ∷ ds) = (is_entered rel d ≡ true) × Enters (rel ++ (d ∷ [])) ds

entered :
    (rel : List String) (d : String) (sub : Folder) (others : Folders)
    → is_entered rel d ≡ true
    → copy_folders rel (entry d sub others)
      ≡ copy_folder (rel ++ (d ∷ [])) sub ++ copy_folders rel others
unfolding copy_folders
entered rel d sub others e = rw (copy_folders, e) refl

passed_over :
    (rel : List String) (d : String) (sub : Folder) (others : Folders)
    → is_entered rel d ≡ false
    → copy_folders rel (entry d sub others) ≡ copy_folders rel others
unfolding copy_folders
passed_over rel d sub others e = rw (copy_folders, e) refl

-- The path of a file is among those that are written.
abbrev pub Listed : List String → String → List (List String × String) → Type 0
Listed path f written = In {A = List String × String} (path, f) written

-- What the walk has to write at a path, from the folder at `rel` on.
abbrev StagedIn : List String → (List String → Type 0) → List String → String → Type 0
StagedIn rel Has path f =
    (below : List String) × (path ≡ rel ++ below)
    × Has below
    × Enters rel below
    × (is_copied path f ≡ true)

mutual
  unfolding copy_folder

  folder-StagedIn :
      (rel : List String) (src : Folder) (path : List String) (f : String)
      → Listed path f (copy_folder rel src)
      → StagedIn rel (λ below. HasFile src below f) path f
  folder-StagedIn rel (folder files dirs) path f m =
      elim (In-append {A = List String × String} (path, f) _ _ m) [
        | inl i ↦
            let (g, there, good, same) =
              In-map-select (λ n. (rel, n)) (is_copied rel) files (path, f) i in
            let place : rel ≡ path = ap (λ x. x.0) same in
            let name : g ≡ f = ap (λ x. x.1) same in
            (
              [],
              sym place ∙ sym (append-nil rel),
              inl (refl, subst (λ n. In n files) name there),
              tt,
              subst (λ q. is_copied q f ≡ true) place
                  (subst (λ n. is_copied rel n ≡ true) name good),
            )
        | inr i ↦
            let (below, join, has, enters, good) = folders-StagedIn rel dirs path f i in
            (below, join, inr has, enters, good)
      ]

  folders-StagedIn :
      (rel : List String) (dirs : Folders) (path : List String) (f : String)
      → Listed path f (copy_folders rel dirs)
      → StagedIn rel (λ below. HasIn dirs below f) path f
  folders-StagedIn rel no_more path f m = absurd m
  folders-StagedIn rel (entry d sub others) path f m =
      let later : Listed path f (copy_folders rel others)
          → StagedIn rel (λ below. HasIn (entry d sub others) below f) path f =
        λ i.
          let (below, join, has, enters, good) = folders-StagedIn rel others path f i in
          (below, join, inr has, enters, good) in
      elim (Bool-cases (is_entered rel d)) [
        | inl go ↦
            elim (In-append {A = List String × String} (path, f) _ _
              (subst (Listed path f) (entered rel d sub others go) m)) [
                | inl i ↦
                    let (below, join, has, enters, good) =
                      folder-StagedIn (rel ++ (d ∷ [])) sub path f i in
                    (
                      d ∷ below,
                      join ∙ append_assoc rel (d ∷ []) below,
                      inl (below, refl, has),
                      (go, enters),
                      good,
                    )
                | inr i ↦ later i
              ]
        | inr skip ↦ later (subst (Listed path f) (passed_over rel d sub others skip) m)
      ]

mutual
  unfolding copy_folder

  HasFile-copied :
      (rel : List String) (src : Folder) (below : List String) (f : String)
      → HasFile src below f
      → Enters rel below
      → is_copied (rel ++ below) f ≡ true
      → Listed (rel ++ below) f (copy_folder rel src)
  HasFile-copied rel (folder files dirs) below f (inl (bottom, there)) enters good =
      let place : rel ++ below ≡ rel = ap (λ b. rel ++ b) bottom ∙ append-nil rel in
      let kept = subst (λ q. is_copied q f ≡ true) place good in
      In-append_left {A = List String × String} _ _ _ (
        subst (λ q. Listed q f (map (λ n. (rel, n)) (select (is_copied rel) files))) (sym place)
          (In-select-map (λ n. (rel, n)) (is_copied rel) files f there kept))
  HasFile-copied rel (folder files dirs) below f (inr has) enters good =
      In-append_right {A = List String × String} _ _ _
        (HasIn-copied rel dirs below f has enters good)

  HasIn-copied :
      (rel : List String) (dirs : Folders) (below : List String) (f : String)
      → HasIn dirs below f
      → Enters rel below
      → is_copied (rel ++ below) f ≡ true
      → Listed (rel ++ below) f (copy_folders rel dirs)
  HasIn-copied rel no_more below f has enters good = absurd has
  HasIn-copied rel (entry d sub others) below f (inl (inner, split, has)) enters good =
      let (go, further) = subst (Enters rel) split enters in
      let place : rel ++ below ≡ (rel ++ (d ∷ [])) ++ inner =
        ap (λ b. rel ++ b) split ∙ sym (append_assoc rel (d ∷ []) inner) in
      let there =
        HasFile-copied (rel ++ (d ∷ [])) sub inner f has further
          (subst (λ q. is_copied q f ≡ true) place good) in
      subst (Listed (rel ++ below) f) (sym (entered rel d sub others go)) (
        In-append_left {A = List String × String} _ _ _
          (subst (λ q. Listed q f (copy_folder (rel ++ (d ∷ [])) sub)) (sym place) there))
  HasIn-copied rel (entry d sub others) below f (inr has) enters good =
      let there = HasIn-copied rel others below f has enters good in
      elim (Bool-cases (is_entered rel d)) [
        | inl go ↦
            subst (Listed (rel ++ below) f) (sym (entered rel d sub others go))
              (In-append_right {A = List String × String} _ _ _ there)
        | inr skip ↦ subst (Listed (rel ++ below) f) (sym (passed_over rel d sub others skip)) there
      ]

-- A name that the walk does not stop at.
abbrev pub IsOpen : String → Type 0
IsOpen d = contains exclude_patterns d ≡ false

any-open : (ds : List String) → All IsOpen ds → any (λ d. contains exclude_patterns d) ds ≡ false
any-open [] all = refl
any-open (d ∷ ds) all = ground (arith, any-open ds all.1)

All-snoc : (ds : List String) (d : String) → All IsOpen ds → IsOpen d → All IsOpen (ds ++ (d ∷ []))
All-snoc [] d all h = (h, tt)
All-snoc (e ∷ ds) d all h = (all.0, All-snoc ds d all.1 h)

Enters-IsOpen_iff : (rel ds : List String) → All IsOpen rel → Enters rel ds ↔ All IsOpen ds
unfolding is_entered
Enters-IsOpen_iff rel [] all = (λ h. tt, λ h. tt)
Enters-IsOpen_iff rel (d ∷ ds) all = (
  λ (go, further).
      let free : IsOpen d = ground arith in
      (free, (Enters-IsOpen_iff (rel ++ (d ∷ [])) ds (All-snoc rel d all free)).0 further),
  λ (free, others).
      let more = All-snoc rel d all free in
      (
        ground (arith, any-open (rel ++ (d ∷ [])) more),
        (Enters-IsOpen_iff (rel ++ (d ∷ [])) ds more).1 others,
      ),
)

-- A file is staged exactly if the package has it, no folder on its path has an excluded name, and
-- its own path and name are not excluded.
pub copy_package_files_iff :
    (src : Folder) (path : List String) (f : String)
    → Listed path f (copy_package_files src)
      ↔ (HasFile src path f × All IsOpen path × (is_copied path f ≡ true))
unfolding copy_package_files
copy_package_files_iff src path f = (
  λ m.
      let (below, join, has, enters, good) = folder-StagedIn [] src path f m in
      (
        subst (λ q. HasFile src q f) (sym join) has,
        subst (All IsOpen) (sym join) ((Enters-IsOpen_iff [] below tt).0 enters),
        good,
      ),
  λ (has, free, good).
      HasFile-copied [] src path f has ((Enters-IsOpen_iff [] path tt).1 free) good,
)
