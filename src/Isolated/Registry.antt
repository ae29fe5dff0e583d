-- ===== src/Isolated/Registry.antt =====
-- The mix.exs that names the registry of the verification.
use autonomic.Common.{
  ℕ, List, [], ◌∷◌, ◌++◌, ◌≡◌, ◌≢◌, refl, ap, drop, All, ◌==◌, nat_eq, all, all_iff, not, not_iff,
  true, nat_beq_iff,
}
use autonomic.Common.Text.{codes}
use autonomic.Release.Rewrite.{strip, hex_dependency}
use autonomic.Release.Rewrite.Matches.{Match, strip_iff}
use autonomic.Release.Rewrite.Rewritten.{Rewritten, finished, kept, swapped, sub-Rewritten}
use autonomic.Isolated.{core_dependency, registry_dependency, registry_mix}

-- The text begins with the dependency on the core as the staging of 0.1.0 writes it, and the rest is
-- behind it.
abbrev pub CoreDependency : Match
CoreDependency t rest = t ≡ hex_dependency (codes "0.1.0") ++ rest

-- Every dependency on the core is replaced, and nothing else.
pub registry_mix-Rewritten :
    (text : List ℕ) → Rewritten CoreDependency registry_dependency text (registry_mix text)
unfolding registry_mix
registry_mix-Rewritten text =
    sub-Rewritten (strip core_dependency) CoreDependency registry_dependency
      (strip_iff core_dependency) (λ t rest e. (b'{', drop 1 core_dependency, e)) text

-- No brace is opened.
abbrev IsFlat : List ℕ → Type 0
IsFlat text = All (λ c. c ≢ b'{') text

-- A dependency in braces, of which there is one pair.
module _ (body new : List ℕ) (body_flat : IsFlat body) (new_flat : IsFlat new)
    (differs : (u b : List ℕ) → new ++ u ≢ body ++ b) where
  abbrev Old : Match
  Old t rest = t ≡ (b'{' ∷ body) ++ rest

  abbrev Redone : List ℕ → List ℕ → Type 0
  Redone t u = Rewritten Old (b'{' ∷ new) t u

  -- What is flat has been kept.
  kept_prefix :
      (t u : List ℕ)
      → Redone t u
      → (p v : List ℕ) → IsFlat p
      → u ≡ p ++ v
      → (w : List ℕ) × (t ≡ p ++ w)
  kept_prefix t u r [] v flat e = (t, refl)
  kept_prefix _ _ finished (c ∷ p) v flat e = cc e
  kept_prefix _ _ (kept d t u other r) (c ∷ p) v (ne, flat) e =
      let first : d ≡ c = cc e in
      let behind : u ≡ p ++ v = cc e in
      let (w, join) = kept_prefix t u r p v flat behind in (w, cc (first, join))
  kept_prefix _ _ (swapped t rest u match r) (c ∷ p) v (ne, flat) e =
      let first : c ≡ b'{' = cc e in absurd (ne first)

  none_first : (t u : List ℕ) → Redone t u → (b : List ℕ) → ¬ (u ≡ (b'{' ∷ body) ++ b)
  none_first _ _ finished b e = cc e
  none_first _ _ (kept d t u other r) b e =
      let first : d ≡ b'{' = cc e in
      let behind : u ≡ body ++ b = cc e in
      let (w, join) = kept_prefix t u r body b body_flat behind in other w (cc (first, join))
  none_first _ _ (swapped t rest u match r) b e =
      let behind : new ++ u ≡ body ++ b = cc e in differs u b behind

  -- An open brace behind something flat is behind it.
  behind_flat :
      (q u a w : List ℕ)
      → IsFlat q
      → q ++ u ≡ a ++ (b'{' ∷ w)
      → (c : List ℕ) × (u ≡ c ++ (b'{' ∷ w))
  behind_flat [] u a w flat e = (a, e)
  behind_flat (x ∷ q) u [] w (ne, flat) e = let first : x ≡ b'{' = cc e in absurd (ne first)
  behind_flat (x ∷ q) u (y ∷ a) w (ne, flat) e =
      let behind : q ++ u ≡ a ++ (b'{' ∷ w) = cc e in behind_flat q u a w flat behind

  none_left : (t u : List ℕ) → Redone t u → (a b : List ℕ) → ¬ (u ≡ a ++ ((b'{' ∷ body) ++ b))
  none_left t u r [] b e = none_first t u r b e
  none_left _ _ finished (x ∷ a) b e = cc e
  none_left _ _ (kept d t u other r) (x ∷ a) b e =
      let behind : u ≡ a ++ ((b'{' ∷ body) ++ b) = cc e in none_left t u r a b behind
  none_left _ _ (swapped t rest u match r) (x ∷ a) b e =
      let behind : new ++ u ≡ a ++ ((b'{' ∷ body) ++ b) = cc e in
      let (c, later) = behind_flat new u a (body ++ b) new_flat behind in
      none_left rest u r c b later

is_flat : (text : List ℕ) → all (λ c. not (c == b'{')) text ≡ true → IsFlat text
is_flat text h = (all_iff (λ c. c ≢ b'{') (λ c. not_iff (c == b'{') (nat_beq_iff c b'{')) text).0 h

-- The two dependencies differ behind the version.
differ : (u b : List ℕ) → drop 1 registry_dependency ++ u ≢ drop 1 core_dependency ++ b
differ u b e =
    let parted : b',' ∷ (codes " repo: \"autonomic_verify\"}" ++ u) ≡ b'}' ∷ b = ap (drop 22) e in
    cc parted

-- What staging writes for the core does not occur in the laid out mix.exs.
pub registry_mix-none_left :
    (text a b : List ℕ) → ¬ (registry_mix text ≡ a ++ (hex_dependency (codes "0.1.0") ++ b))
registry_mix-none_left text a b =
    none_left (drop 1 core_dependency) (drop 1 registry_dependency)
      (is_flat (drop 1 core_dependency) refl) (is_flat (drop 1 registry_dependency) refl) differ
      text (registry_mix text) (registry_mix-Rewritten text) a b
