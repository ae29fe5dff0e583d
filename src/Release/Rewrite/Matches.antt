-- ===== src/Release/Rewrite/Matches.antt =====
-- What the expressions of the substitutions match at the start of a text.
use mathlib.Core.Option.{some-injective}
use autonomic.Common.{
  ℕ, ◌≤◌, Bool, true, false, not, Option, none, some, List, [], ◌∷◌, ◌++◌, ◌≡◌, ◌↔◌, refl, ap, ◌∙◌,
  inl, inr, arith, ◌==◌, nat_eq, length, is_empty, All, Bool-cases, Option-cases, nat_beq_iff,
}
use autonomic.Common.Text.{codes}
use autonomic.Boundaries.Deps.{is_space, span}
use autonomic.Boundaries.Deps.Declared.{span_stop, span_parts}
use autonomic.Release.Rewrite.{strip, find_behind, block, skip_unquoted, direct_path, ◌>>=◌}

-- A relation between a text and what is left of it behind a match at its start.
abbrev pub Match : Type 1
Match = List ℕ → List ℕ → Type 0

pub strip_iff : (p t rest : List ℕ) → (strip p t ≡ some rest) ↔ (t ≡ p ++ rest)
unfolding strip
strip_iff [] t rest = (λ h. some-injective _ _ h, λ e. ap some e)
strip_iff (p ∷ ps) [] rest = (λ h. cc, λ e. cc)
strip_iff (p ∷ ps) (c ∷ cs) rest = (
  λ h. elim (Bool-cases (p == c)) [
    | inl same ↦ cc ((nat_beq_iff p c).0 same, (strip_iff ps cs rest).0 (rw same at h))
    | inr other ↦ cc (rw other at h)
  ],
  λ e.
      let first : p ≡ c = cc in
      let later : cs ≡ ps ++ rest = cc in
      rw ((nat_beq_iff p c).1 first) ((strip_iff ps cs rest).1 later),
)

-- `middle` stands before the first occurrence of `close`, and `rest` behind it.
abbrev pub Closes : List ℕ → List ℕ → List ℕ → List ℕ → Type 0
Closes close middle rest t =
    (t ≡ middle ++ (close ++ rest))
    × ((a b : List ℕ) → t ≡ a ++ (close ++ b) → length middle ≤ length a)

-- Where `close` does not stand at the start, its first occurrence is the one of the rest.
pub first_later :
    (close middle : List ℕ) (c : ℕ) (cs : List ℕ)
    → strip close (c ∷ cs) ≡ none
    → ((a b : List ℕ) → cs ≡ a ++ (close ++ b) → length middle ≤ length a)
    → (a b : List ℕ) → c ∷ cs ≡ a ++ (close ++ b)
    → length (c ∷ middle) ≤ length a
first_later close middle c cs other first [] b e = cc (other, (strip_iff close (c ∷ cs) b).1 e)
first_later close middle c cs other first (x ∷ a) b e =
    let tails : cs ≡ a ++ (close ++ b) = cc in omega (arith, first a b tails)

find_behind-Closes :
    (close t rest : List ℕ)
    → find_behind close t ≡ some rest
    → (middle : List ℕ) × Closes close middle rest t
unfolding find_behind
find_behind-Closes close [] rest h = ([], ((strip_iff close [] rest).0 h, λ a b e. omega arith))
find_behind-Closes close (c ∷ cs) rest h = elim (Option-cases (strip close (c ∷ cs))) [
  | inr (r, here) ↦
      let same : r ≡ rest = cc (rw (here, find_behind) at h) in
      ([], ((strip_iff close (c ∷ cs) rest).0 (here ∙ ap some same), λ a b e. omega arith))
  | inl other ↦
      let (middle, (join, first)) =
        find_behind-Closes close cs rest (rw (other, find_behind) at h) in
      (c ∷ middle, (ap (λ w. c ∷ w) join, first_later close middle c cs other first))
]

Closes-find_behind :
    (close middle t rest : List ℕ) → Closes close middle rest t → find_behind close t ≡ some rest
unfolding find_behind
Closes-find_behind close [] [] rest (join, first) = (strip_iff close [] rest).1 join
Closes-find_behind close (m ∷ ms) [] rest (join, first) = cc
Closes-find_behind close [] (c ∷ cs) rest (join, first) =
    rw ((strip_iff close (c ∷ cs) rest).1 join, find_behind) refl
Closes-find_behind close (m ∷ ms) (c ∷ cs) rest (join, first) =
    elim (Option-cases (strip close (c ∷ cs))) [
      | inr (r, here) ↦ absurd (omega (arith, first [] r ((strip_iff close (c ∷ cs) r).0 here)))
      | inl other ↦
          let tails : cs ≡ ms ++ (close ++ rest) = cc in
          rw (other, find_behind)
            (Closes-find_behind close ms cs rest
              (tails, λ a b e. omega (arith, first (c ∷ a) b (ap (λ w. c ∷ w) e))))
    ]

-- The block that begins at the start of the text: `opening`, all up to the first `close`, and that.
abbrev pub Block : List ℕ → List ℕ → Match
Block opening close t rest =
    (inner : List ℕ) × (middle : List ℕ) × (t ≡ opening ++ inner) × Closes close middle rest inner

pub block_iff :
    (opening close t rest : List ℕ)
    → (block opening close t ≡ some rest) ↔ Block opening close t rest
unfolding block
block_iff opening close t rest = (
  λ h. elim (Option-cases (strip opening t)) [
    | inl other ↦ cc (rw (other, block) at h)
    | inr (inner, begun) ↦
        let (middle, closes) = find_behind-Closes close inner rest (rw (begun, block) at h) in
        (inner, middle, (strip_iff opening t inner).0 begun, closes)
  ],
  λ (inner, middle, begun, closes).
      rw ((strip_iff opening t inner).1 begun, block)
        (Closes-find_behind close middle inner rest closes),
)

bind-some :
    (m : Option (List ℕ)) (f : List ℕ → Option (List ℕ)) (r : List ℕ)
    → (m >>= f) ≡ some r
    → (a : List ℕ) × (m ≡ some a) × (f a ≡ some r)
bind-some none f r h = cc
bind-some (some a) f r h = (a, refl, h)

abbrev pub unquoted : ℕ → Bool
unquoted c = not (c == b'"')

-- `[^"]+`, up to a quote.
Unquoted : List ℕ → List ℕ → Type 0
Unquoted t rest =
    (quoted : List ℕ) × (t ≡ quoted ++ rest)
    × All (λ c. unquoted c ≡ true) quoted
    × (is_empty quoted ≡ false)

skip_unquoted-Unquoted : (t rest : List ℕ) → skip_unquoted t ≡ some rest → Unquoted t rest
unfolding Unquoted
skip_unquoted-Unquoted t rest h =
    let (join, all) = span_parts unquoted t in
    let found : is_empty (span unquoted t).0 ≡ false = ground arith in
    let left : (span unquoted t).1 ≡ rest = cc (rw found at h) in
    ((span unquoted t).0, join ∙ ap (λ w. (span unquoted t).0 ++ w) left, all, found)

-- The dependency on the core by a path, at the start of the text.
abbrev pub DirectPath : Match
DirectPath t rest =
    (spaces : List ℕ) × (more : List ℕ) × (quoted : List ℕ) × (t
      ≡ codes "{:autonomic,"
        ++ (spaces
            ++ (codes "path:" ++ (more ++ (codes "\"" ++ (quoted ++ (codes "\"}" ++ rest)))))))
    × All (λ c. is_space c ≡ true) spaces
    × All (λ c. is_space c ≡ true) more
    × All (λ c. unquoted c ≡ true) quoted
    × (is_empty quoted ≡ false)

direct_path-DirectPath : (t rest : List ℕ) → direct_path t ≡ some rest → DirectPath t rest
unfolding direct_path Unquoted
direct_path-DirectPath t rest h =
    let (a, ea, ha) = bind-some (strip (codes "{:autonomic,") t) _ rest h in
    let (sa, pa) = span_parts is_space a in
    let (c, ec, hc) = bind-some (strip (codes "path:") (span is_space a).1) _ rest ha in
    let (sc, pc) = span_parts is_space c in
    let (e, ee, he) = bind-some (strip (codes "\"") (span is_space c).1) _ rest hc in
    let (f, ef, hf) = bind-some (skip_unquoted e) _ rest he in
    let (quoted, ejoin, all, found) = skip_unquoted-Unquoted e f ef in
    (
      (span is_space a).0,
      (span is_space c).0,
      quoted,
      (strip_iff (codes "{:autonomic,") t a).0 ea
          ∙ ap (λ w. codes "{:autonomic," ++ w)
              (sa
                ∙ ap (λ w. (span is_space a).0 ++ w)
                    ((strip_iff (codes "path:") _ c).0 ec
                      ∙ ap (λ w. codes "path:" ++ w)
                          (sc
                            ∙ ap (λ w. (span is_space c).0 ++ w)
                                ((strip_iff (codes "\"") _ e).0 ee
                                  ∙ ap (λ w. codes "\"" ++ w)
                                      (ejoin
                                        ∙ ap (λ w. quoted ++ w)
                                            ((strip_iff (codes "\"}") f rest).0 hf)))))),
      pa,
      pc,
      all,
      found,
    )

DirectPath-direct_path : (t rest : List ℕ) → DirectPath t rest → direct_path t ≡ some rest
unfolding direct_path
DirectPath-direct_path t rest (spaces, more, quoted, join, pa, pc, all, found) =
    let end = codes "\"}" ++ rest in
    let quote = codes "\"" ++ (quoted ++ end) in
    let key = codes "path:" ++ (more ++ quote) in
    let a = (strip_iff (codes "{:autonomic,") t (spaces ++ key)).1 join in
    let b = span_stop is_space spaces key pa refl in
    let c = (strip_iff (codes "path:") key (more ++ quote)).1 refl in
    let d = span_stop is_space more quote pc refl in
    let e = (strip_iff (codes "\"") quote (quoted ++ end)).1 refl in
    let f = span_stop unquoted quoted end all refl in rw (a, b, d, f, found) refl

pub direct_path_iff : (t rest : List ℕ) → (direct_path t ≡ some rest) ↔ DirectPath t rest
direct_path_iff t rest = (direct_path-DirectPath t rest, DirectPath-direct_path t rest)
