-- ===== src/Qc/Inventory/Laws/Whitespace.antt =====
-- The reported places are the first fifty of all lines that end with a blank or a tab.
use mathlib.Core.List.{append_assoc, append-nil}
use autonomic.Common.{
  ℕ, suc, ◌≤◌, ◌<◌, String, false, List, [], ◌∷◌, ◌++◌, ◌≡◌, refl, sym, ap, ◌∙◌, inl, inr, arith,
  leb, leb→le, leb-false→lt, length, length-append, length-take, take, take_all, take-append_left,
  if◌then◌else◌, Bool-cases,
}
use autonomic.Qc.Inventory.Files.{SourceFile, Checkout, source_files, path_text}
use autonomic.Qc.Inventory.Static.{
  Place, trails, place_limit, scan_lines, checked_lines, is_checked, scan_files, bad_whitespace,
}

-- All places of a file, from a line number on.
abbrev pub line_places : String → ℕ → List (List ℕ) → List Place
line_places path number [] = []
line_places path number (line ∷ lines) =
    let rest = line_places path (suc number) lines in
    if trails line then (path, number) ∷ rest else rest

abbrev pub all_places : List SourceFile → List Place
all_places [] = []
all_places (f ∷ files) = line_places (path_text f.parts) 1 (checked_lines f) ++ all_places files

scan_lines-eq-take :
    (path : String) (number : ℕ) (lines : List (List ℕ)) (bad : List Place)
    → length bad < place_limit
    → scan_lines path number lines bad ≡ take place_limit (bad ++ line_places path number lines)
unfolding scan_lines
scan_lines-eq-take path number [] bad h =
    sym (rw append-nil (take_all place_limit bad (omega arith)))
scan_lines-eq-take path number (line ∷ lines) bad h = elim (Bool-cases (trails line)) [
  | inl hit ↦
      let more = bad ++ ((path, number) ∷ []) in
      let size = length-append bad ((path, number) ∷ []) in
      let rest = line_places path (suc number) lines in
      elim (Bool-cases (leb place_limit (length more))) [
        | inl full ↦
            rw (hit, full, ← append_assoc bad ((path, number) ∷ []) rest)
              (sym (
                take-append_left place_limit more rest (leb→le _ _ full)
                ∙ take_all place_limit more (omega (arith, size))))
        | inr room ↦
            rw (hit, room, ← append_assoc bad ((path, number) ∷ []) rest)
              (scan_lines-eq-take path (suc number) lines more (ground (arith, room)))
      ]
  | inr miss ↦ rw miss (scan_lines-eq-take path (suc number) lines bad h)
]

unchecked_lines : (f : SourceFile) → is_checked f ≡ false → checked_lines f ≡ []
unfolding checked_lines is_checked
unchecked_lines f h = rw h refl

-- A file that is passed over adds no place.
unchecked_adds_none :
    (f : SourceFile) (path : String) (bad : List Place)
    → is_checked f ≡ false
    → scan_lines path 1 (checked_lines f) bad ≡ bad
unfolding scan_lines
unchecked_adds_none f path bad h = rw (unchecked_lines f h) refl

module _ (files : List SourceFile) (bad found seen : List Place) where
  abbrev Cut : List Place → Type 0
  Cut result = result ≡ take place_limit (bad ++ (found ++ all_places files))

  Cut-full : seen ≡ take place_limit (bad ++ found) → place_limit ≤ length seen → Cut seen
  Cut-full here full =
      let enough : place_limit ≤ length (bad ++ found) =
        omega (arith, length-take place_limit (bad ++ found), ap length here) in
      here
      ∙ rw (← append_assoc bad found (all_places files))
          (sym (take-append_left place_limit (bad ++ found) (all_places files) enough))

  Cut-room :
      seen ≡ take place_limit (bad ++ found)
      → length seen < place_limit
      → scan_files files seen ≡ take place_limit (seen ++ all_places files)
      → Cut (scan_files files seen)
  Cut-room here room rest =
      let few : length (bad ++ found) ≤ place_limit =
        omega (arith, length-take place_limit (bad ++ found), ap length here) in
      let whole = here ∙ take_all place_limit (bad ++ found) few in
      rest
      ∙ ap (λ b. take place_limit (b ++ all_places files)) whole
      ∙ ap (take place_limit) (append_assoc bad found (all_places files))

scan_files-eq-take :
    (files : List SourceFile) (bad : List Place)
    → length bad < place_limit
    → scan_files files bad ≡ take place_limit (bad ++ all_places files)
unfolding scan_files
scan_files-eq-take [] bad h = sym (rw append-nil (take_all place_limit bad (omega arith)))
scan_files-eq-take (f ∷ files) bad h =
    let path = path_text f.parts in
    let found = line_places path 1 (checked_lines f) in
    let seen = scan_lines path 1 (checked_lines f) bad in
    let here = scan_lines-eq-take path 1 (checked_lines f) bad h in
    let same = unchecked_adds_none f path bad in
    elim (Bool-cases (leb place_limit (length seen))) [
      | inl full ↦ elim (Bool-cases (is_checked f)) [
        | inl looked ↦ rw (looked, full) (Cut-full files bad found seen here (leb→le _ _ full))
        | inr passed_over ↦ absurd (omega (arith, ap length (same passed_over), leb→le _ _ full))
      ]
      | inr room ↦
          let few = leb-false→lt place_limit (length seen) room in
          let rest = Cut-room files bad found seen here few (scan_files-eq-take files seen few) in
          elim (Bool-cases (is_checked f)) [
            | inl looked ↦ rw (looked, room) rest
            | inr passed_over ↦ rw passed_over rest
          ]
    ]

-- The inventory reports the first fifty places where a line of a checked file ends with a blank
-- or a tab, in the order of the files and lines, and all of them if there are fewer.
pub bad_whitespace-eq-take :
    (c : Checkout) → bad_whitespace c ≡ take place_limit (all_places (source_files c))
unfolding bad_whitespace
bad_whitespace-eq-take c = scan_files-eq-take (source_files c) [] (omega arith)
