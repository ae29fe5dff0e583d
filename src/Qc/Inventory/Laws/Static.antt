-- ===== src/Qc/Inventory/Laws/Static.antt =====
-- When the inventory gate passes, and where it checks no JSON file.
use autonomic.Common.{
  ℕ, suc, String, Bool, true, false, not, ◌||◌, List, [], ◌∷◌, ◌++◌, ◌≡◌, refl, ap, ◌∙◌, ◌↔◌, arith,
  take, is_empty-append, All, any, is_empty, is_empty-select_iff, contains, string_eq,
}
use autonomic.Qc.Gate.{passed}
use autonomic.Qc.Inventory.Files.{
  SourceFile, Checkout, skip_dirs, is_skipped, source_files, path_text,
}
use autonomic.Qc.Inventory.Static.{
  trails, required_files, has_file, missing_files, json_errors, parse_errors, checked_lines,
  bad_whitespace, static_inventory,
}
use autonomic.Qc.Inventory.Laws.Whitespace.{line_places, all_places, bad_whitespace-eq-take}

-- No line of a checked file ends with a blank or a tab.
abbrev pub IsTidy : SourceFile → Type 0
IsTidy f = All (λ line. trails line ≡ false) (checked_lines f)

line_places-empty_iff :
    (path : String) (number : ℕ) (lines : List (List ℕ))
    → (is_empty (line_places path number lines) ≡ true) ↔ All (λ line. trails line ≡ false) lines
line_places-empty_iff path number [] = (λ h. tt, λ h. refl)
line_places-empty_iff path number (line ∷ lines) =
    let rest = line_places-empty_iff path (suc number) lines in
    (λ h. ground (arith, rest.0), λ h. ground (arith, rest.1))

all_places-empty_iff :
    (files : List SourceFile) → (is_empty (all_places files) ≡ true) ↔ All IsTidy files
all_places-empty_iff [] = (λ h. tt, λ h. refl)
all_places-empty_iff (f ∷ files) =
    let path = path_text f.parts in
    let found = line_places path 1 (checked_lines f) in
    let split = is_empty-append found (all_places files) in
    let here = line_places-empty_iff path 1 (checked_lines f) in
    let rest = all_places-empty_iff files in
    (
      λ h. (here.0 (ground (arith, split, h)), rest.0 (ground (arith, split, h))),
      λ h. rw split (ground (arith, here.1 h.0, rest.1 h.1)),
    )

is_empty-take : {A : Type 0} (n : ℕ) (xs : List A) → is_empty (take (suc n) xs) ≡ is_empty xs
is_empty-take n [] = refl
is_empty-take n (x ∷ xs) = refl

bad_whitespace-empty_iff :
    (c : Checkout) → (is_empty (bad_whitespace c) ≡ true) ↔ All IsTidy (source_files c)
bad_whitespace-empty_iff c =
    let same =
      ap is_empty (bad_whitespace-eq-take c) ∙ is_empty-take 49 (all_places (source_files c)) in
    rw same (all_places-empty_iff (source_files c))

All-not-false :
    {A : Type 0} (p : A → Bool) (xs : List A)
    → All (λ x. not (p x) ≡ false) xs
    → All (λ x. p x ≡ true) xs
All-not-false p [] h = tt
All-not-false p (x ∷ xs) h = (ground arith, All-not-false p xs h.1)

All-not-true :
    {A : Type 0} (p : A → Bool) (xs : List A)
    → All (λ x. p x ≡ true) xs
    → All (λ x. not (p x) ≡ false) xs
All-not-true p [] h = tt
All-not-true p (x ∷ xs) h = (ground arith, All-not-true p xs h.1)

-- The inventory gate passes exactly if every required file is there, nothing failed to parse, and
-- no line of a checked file ends with a blank or a tab, however many such lines there are.
pub static_inventory_passed_iff :
    (c : Checkout)
    → ((static_inventory c).status ≡ passed) ↔ (
        All (λ path. has_file c path ≡ true) required_files
        × (is_empty (parse_errors c) ≡ true)
        × All IsTidy (source_files c))
unfolding static_inventory missing_files
static_inventory_passed_iff c =
    let files = is_empty-select_iff (λ path. not (has_file c path)) required_files in
    let lines = bad_whitespace-empty_iff c in
    (
      λ h. (
        All-not-false (has_file c) required_files (files.0 (ground (arith, h))),
        ground (arith, h),
        lines.0 (ground (arith, h)),
      ),
      λ (have, parsed, tidy).
          let none_missing = files.1 (All-not-true (has_file c) required_files have) in
          let clean = lines.1 tidy in rw (none_missing, parsed, clean) refl,
    )

any-append :
    {A : Type 0} (p : A → Bool) (xs ys : List A) → any p (xs ++ ys) ≡ (any p xs || any p ys)
any-append p [] ys = refl
any-append p (x ∷ xs) ys = ground (arith, any-append p xs ys)

is_skipped-append :
    (parts more : List String) → is_skipped (parts ++ more) ≡ (is_skipped parts || is_skipped more)
unfolding is_skipped
is_skipped-append parts more = any-append (λ part. contains skip_dirs part) parts more

-- A checkout below a folder whose name is in SKIP_DIRS, such as /var, reports no JSON file: the
-- loop tests all parts of the path, not those below the root.
pub json_errors_below_skipped :
    (c : Checkout) (files : List SourceFile)
    → is_skipped c.root_parts ≡ true
    → json_errors c files ≡ []
unfolding json_errors
json_errors_below_skipped c [] h = refl
json_errors_below_skipped c (f ∷ files) h =
    let skipped : is_skipped (c.root_parts ++ f.parts) ≡ true =
      is_skipped-append c.root_parts f.parts ∙ rw h refl in
    let rest = json_errors_below_skipped c files h in ground (arith, skipped, rest)
