-- ===== src/Rootfs/Libraries.antt =====
-- The paths that the expression finds in the output of ldd.
use mathlib.Core.Path.{subst}
use autonomic.Common.{
  ℕ, zero, suc, true, false, not, ◌&&◌, List, [], ◌∷◌, ◌++◌, ◌≡◌, refl, sym, ap, ◌∙◌, inl, inr,
  ◌==◌, nat_eq, length, drop, is_empty, All, In, Bool-cases, nat_beq_iff,
}
use autonomic.Boundaries.Deps.Declared.{Stops, span_stop}
use autonomic.Release.Rewrite.Rewritten.{drop-append}
use autonomic.Rootfs.{is_path_char, paths_from, library_paths}

-- The text names the path: from the first slash of a word, a longest piece without blanks and
-- parentheses, up to the end of that word, with something behind the slash.
pub data Names (path : List ℕ) : List ℕ → Type 0 where
  here :
      (text before body after : List ℕ)
      → All (λ c. (c == b'/') ≡ false) before
      → All (λ c. is_path_char c ≡ true) body
      → (is_empty body ≡ false)
      → Stops is_path_char after
      → path ≡ b'/' ∷ body
      → text ≡ before ++ (b'/' ∷ (body ++ after))
      → Names path text
  later :
      (text word rest : List ℕ) (c : ℕ)
      → All (λ d. is_path_char d ≡ true) word
      → is_path_char c ≡ false
      → Names path rest
      → text ≡ word ++ (c ∷ rest)
      → Names path text

paths_from-drop : (skip : ℕ) (t : List ℕ) → paths_from skip t ≡ paths_from zero (drop skip t)
unfolding paths_from
paths_from-drop zero t = refl
paths_from-drop (suc skip) [] = refl
paths_from-drop (suc skip) (c ∷ cs) = paths_from-drop skip cs

paths_from-other :
    (c : ℕ) (cs : List ℕ) → (c == b'/') ≡ false → paths_from zero (c ∷ cs) ≡ paths_from zero cs
unfolding paths_from
paths_from-other c cs other = rw other refl

-- A word does not hide the paths behind it.
In-paths_from :
    (path word after : List ℕ)
    → All (λ c. is_path_char c ≡ true) word
    → Stops is_path_char after
    → In path (paths_from zero after)
    → In path (paths_from zero (word ++ after))
unfolding paths_from
In-paths_from path [] after free stops m = m
In-paths_from path (c ∷ word) after (good, free) stops m =
    let taken = ap (λ r. r.0) (span_stop is_path_char word after free stops) in
    elim (Bool-cases (c == b'/' && not (is_empty word))) [
      | inl match ↦
          let behind : paths_from (length word) (word ++ after) ≡ paths_from zero after =
            paths_from-drop (length word) (word ++ after)
            ∙ ap (paths_from zero) (drop-append word after) in
          rw (taken, match, behind) (inr m)
      | inr no_match ↦ rw (taken, no_match) (In-paths_from path word after free stops m)
    ]

In-here :
    (before body after : List ℕ)
    → All (λ c. (c == b'/') ≡ false) before
    → All (λ c. is_path_char c ≡ true) body
    → (is_empty body ≡ false)
    → Stops is_path_char after
    → In (b'/' ∷ body) (paths_from zero (before ++ (b'/' ∷ (body ++ after))))
unfolding paths_from
In-here [] body after plain free some_char stops =
    rw (ap (λ r. r.0) (span_stop is_path_char body after free stops), some_char) (inl refl)
In-here (c ∷ before) body after (other, plain) free some_char stops =
    subst (In (b'/' ∷ body)) (sym (paths_from-other c (before ++ (b'/' ∷ (body ++ after))) other))
      (In-here before body after plain free some_char stops)

separator-slash : (c : ℕ) → is_path_char c ≡ false → (c == b'/') ≡ false
separator-slash c separator = elim (Bool-cases (c == b'/')) [
  | inr other ↦ other
  | inl slash ↦
      let same : is_path_char c ≡ true = ap is_path_char ((nat_beq_iff c b'/').0 slash) in
      cc (same, separator)
]

-- Every path that the text names is found.
pub Names-library_paths : (path text : List ℕ) → Names path text → In path (library_paths text)
unfolding library_paths
Names-library_paths path text (here _ before body after plain free some_char stops e join) =
    subst (λ t. In path (paths_from zero t)) (sym join)
      (subst (λ p. In p (paths_from zero (before ++ (b'/' ∷ (body ++ after))))) (sym e)
        (In-here before body after plain free some_char stops))
Names-library_paths path text (later _ word rest c free separator names join) =
    let plain = separator-slash c separator in
    subst (λ t. In path (paths_from zero t)) (sym join)
      (In-paths_from path word (c ∷ rest) free separator (
        subst (In path) (sym (paths_from-other c rest plain))
          (Names-library_paths path rest names)))
