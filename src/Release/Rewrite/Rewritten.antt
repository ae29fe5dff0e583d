-- ===== src/Release/Rewrite/Rewritten.antt =====
-- The substitutions replace what the expressions match, from the left, and keep everything else.
use mathlib.Core.Path.{subst}
use mathlib.Core.List.{append_assoc}
use autonomic.Common.{
  ℕ, zero, suc, ◌-◌, ◌≤◌, Option, none, some, List, [], ◌∷◌, ◌++◌, ◌≡◌, ◌↔◌, refl, sym, ap, ◌∙◌,
  inl, inr, arith, length, length-append, drop, is_empty, false, Option-cases,
}
use autonomic.Common.Text.{codes}
use autonomic.Release.Rewrite.{
  sub_from, sub, block, direct_path, core_opening, sdk_opening, block_end, hex_dependency,
  rewrite_mix,
}
use autonomic.Release.Rewrite.Matches.{Match, Block, DirectPath, block_iff, direct_path_iff}

-- The text `u` is `t` with each match replaced, from the left, and all else kept.
pub data Rewritten (M : Match) (repl : List ℕ) : List ℕ → List ℕ → Type 0 where
  finished : Rewritten M repl [] []
  kept :
      (c : ℕ) (t u : List ℕ)
      → ((rest : List ℕ) → ¬ M (c ∷ t) rest)
      → Rewritten M repl t u
      → Rewritten M repl (c ∷ t) (c ∷ u)
  swapped :
      (t rest u : List ℕ) → M t rest → Rewritten M repl rest u → Rewritten M repl t (repl ++ u)

pub drop-append : (hit rest : List ℕ) → drop (length hit) (hit ++ rest) ≡ rest
drop-append [] rest = refl
drop-append (h ∷ hit) rest = drop-append hit rest

sub_from-drop :
    (m : List ℕ → Option (List ℕ)) (repl : List ℕ) (skip : ℕ) (t : List ℕ)
    → sub_from m repl skip t ≡ sub_from m repl zero (drop skip t)
unfolding sub_from
sub_from-drop m repl zero t = refl
sub_from-drop m repl (suc skip) [] = refl
sub_from-drop m repl (suc skip) (c ∷ cs) = sub_from-drop m repl skip cs

-- A match takes at least one character off the text.
abbrev pub IsConsuming : Match → Type 0
IsConsuming M = (t rest : List ℕ) → M t rest → (c : ℕ) × (hit : List ℕ) × (t ≡ c ∷ (hit ++ rest))

module _ (m : List ℕ → Option (List ℕ)) (M : Match) (repl : List ℕ)
    (m_iff : (t rest : List ℕ) → (m t ≡ some rest) ↔ M t rest) (consuming : IsConsuming M) where
  sub_none :
      (c : ℕ) (cs : List ℕ)
      → m (c ∷ cs) ≡ none
      → sub_from m repl zero (c ∷ cs) ≡ c ∷ sub_from m repl zero cs
  unfolding sub_from
  sub_none c cs e = rw (e, sub_from) refl

  sub_some :
      (c : ℕ) (hit rest : List ℕ)
      → m (c ∷ (hit ++ rest)) ≡ some rest
      → sub_from m repl zero (c ∷ (hit ++ rest)) ≡ repl ++ sub_from m repl zero rest
  unfolding sub_from
  sub_some c hit rest e =
      let size : length (hit ++ rest) - length rest ≡ length hit =
        omega (arith, length-append hit rest) in
      let there =
        sub_from-drop m repl (length hit) (hit ++ rest)
        ∙ ap (sub_from m repl zero) (drop-append hit rest) in
      rw (e, sub_from, size, there) refl

  sub_from-Rewritten :
      (n : ℕ) (t : List ℕ) → length t ≤ n → Rewritten M repl t (sub_from m repl zero t)
  unfolding sub_from
  sub_from-Rewritten n [] h = finished
  sub_from-Rewritten zero (c ∷ cs) h = absurd (omega (arith, h))
  sub_from-Rewritten (suc n) (c ∷ cs) h = elim (Option-cases (m (c ∷ cs))) [
    | inl other ↦ subst (Rewritten M repl (c ∷ cs)) (sym (sub_none c cs other)) (
        kept c cs _ (λ rest found. cc (other, (m_iff (c ∷ cs) rest).1 found))
          (sub_from-Rewritten n cs (omega (arith, h))))
    | inr (rest, hit) ↦
        let match = (m_iff (c ∷ cs) rest).0 hit in
        let (d, taken, join) = consuming (c ∷ cs) rest match in
        let small : length rest ≤ n = omega (arith, h, ap length join, length-append taken rest) in
        let there =
          ap (sub_from m repl zero) join ∙ sub_some d taken rest (ap m (sym join) ∙ hit) in
        subst (Rewritten M repl (c ∷ cs)) (sym there)
          (swapped (c ∷ cs) rest _ match (sub_from-Rewritten n rest small))
  ]

  pub sub-Rewritten : (t : List ℕ) → Rewritten M repl t (sub m repl t)
  unfolding sub
  sub-Rewritten t = sub_from-Rewritten (length t) t (omega arith)

nonempty_match :
    (opening inner rest : List ℕ) (skipped : List ℕ) (t : List ℕ)
    → is_empty opening ≡ false
    → t ≡ opening ++ inner
    → inner ≡ skipped ++ rest
    → (c : ℕ) × (hit : List ℕ) × (t ≡ c ∷ (hit ++ rest))
nonempty_match [] inner rest skipped t found begun join = cc
nonempty_match (o ∷ os) inner rest skipped t found begun join = (
  o,
  os ++ skipped,
  begun ∙ ap (λ w. o ∷ (os ++ w)) join ∙ ap (λ w. o ∷ w) (sym (append_assoc os skipped rest)),
)

Block-IsConsuming :
    (opening close : List ℕ) → is_empty opening ≡ false → IsConsuming (Block opening close)
Block-IsConsuming opening close found t rest (inner, middle, begun, (join, first)) =
    nonempty_match opening inner rest (middle ++ close) t found begun
      (join ∙ sym (append_assoc middle close rest))

-- Everything between the brace and the rest.
direct_middle : List ℕ → List ℕ → List ℕ → List ℕ
direct_middle spaces more quoted =
    spaces ++ (codes "path:" ++ (more ++ (codes "\"" ++ (quoted ++ codes "\"}"))))

direct_middle_lem :
    (spaces more quoted rest : List ℕ)
    → spaces ++ (codes "path:" ++ (more ++ (codes "\"" ++ (quoted ++ (codes "\"}" ++ rest)))))
      ≡ direct_middle spaces more quoted ++ rest
unfolding direct_middle
direct_middle_lem spaces more quoted rest = simp append_assoc

DirectPath-IsConsuming : IsConsuming DirectPath
DirectPath-IsConsuming t rest d =
    nonempty_match (codes "{:autonomic,") _ rest (direct_middle d.0 d.1 d.2) t refl d.3
      (direct_middle_lem d.0 d.1 d.2 rest)

sub-block-Rewritten :
    (opening close repl t : List ℕ)
    → is_empty opening ≡ false
    → Rewritten (Block opening close) repl t (sub (block opening close) repl t)
sub-block-Rewritten opening close repl t found =
    sub-Rewritten (block opening close) (Block opening close) repl (block_iff opening close)
      (Block-IsConsuming opening close found) t

abbrev pub DependencyBlock : Match
DependencyBlock = Block core_opening block_end

abbrev pub SdkBlock : Match
SdkBlock = Block sdk_opening block_end

-- The rewriting of a mix.exs replaces each block that defines autonomic_dependency, up to its first
-- line that begins with two blanks and `end`, then each dependency on autonomic by a path, then
-- each block that defines sdk_dependency, by the versioned forms, and keeps every other character.
pub rewrite_mix-Rewritten :
    (version content : List ℕ)
    → (first : List ℕ) × (second : List ℕ) × Rewritten DependencyBlock
        (codes "defp autonomic_dependency, do: " ++ hex_dependency version)
        content
        first
      × Rewritten DirectPath (hex_dependency version) first second
      × Rewritten SdkBlock
          (codes "defp sdk_dependency, do: {:typesafe_sdk, \"~> 0.4.0\"}")
          second
          (rewrite_mix version content)
unfolding rewrite_mix
rewrite_mix-Rewritten version content = (
  _,
  _,
  sub-block-Rewritten core_opening block_end _ content refl,
  sub-Rewritten direct_path DirectPath (hex_dependency version) direct_path_iff
      DirectPath-IsConsuming _,
  sub-block-Rewritten sdk_opening block_end _ _ refl,
)
