-- ===== src/Boundaries/Rules.antt =====
-- The rules for a package's mix.exs.
use autonomic.Common.{
  ℕ, String, Bool, true, false, not, ◌&&◌, ◌||◌, none, some, List, [], ◌∷◌, ◌++◌, ◌≡◌, ◌↔◌, ◌≢◌,
  refl, sym, ap, ◌∙◌, inl, inr, arith, ◌==◌, string_eq, is_empty, is_empty-select_iff, All,
  contains, contains_iff, select, Option-cases, false_iff,
}
use autonomic.Common.Text.{codes, text_eq}
use autonomic.Regex.{literal}
use autonomic.Regex.Matching.{MatchesInside, search_in_iff}
use mathlib.Core.Path.{subst}
use mathlib.Core.Option.{some-injective}
use text.Mathlib.TextEquality.{eq_iff}
use autonomic.Boundaries.Deps.{parse_package_deps}
use autonomic.Boundaries.Deps.Declared.{Declares, parse_package_deps_iff}
use autonomic.Boundaries.{Tree, Violation, report_if, mentions, text_violations, package_violations}

-- The text occurs in the content.
unfoldable pub Mentions : String → List ℕ → Type 0
Mentions text content = MatchesInside (literal (codes text)) content

-- The content declares the package as a dependency.
unfoldable pub DependsOn : List ℕ → String → Type 0
DependsOn content pkg = Declares content (codes pkg)

-- What the rules ask of the mix.exs of a package.
abbrev pub ObeysRules : String → List String → List ℕ → Type 0
ObeysRules pkg forbidden content =
    All (λ d. ¬ DependsOn content d) forbidden
    × (pkg ≢ "autonomic" → DependsOn content "autonomic")
    × (¬ Mentions "in_umbrella: true" content)
    × (¬ Mentions "in_umbrella: :true" content)
    × (¬ Mentions "apps_path" content)
    × (¬ DependsOn content "autonomic_examples_dev")

abbrev pub PackageObeys : Tree → String × List String → Type 0
PackageObeys tree (pkg, forbidden) =
    (content : List ℕ) × (tree.mix_file pkg ≡ some content) × ObeysRules pkg forbidden content

depends_iff :
    (content : List ℕ) (pkg : String)
    → (contains (parse_package_deps content) (codes pkg) ≡ true) ↔ DependsOn content pkg
unfolding DependsOn
depends_iff content pkg =
    let listed = contains_iff (parse_package_deps content) (codes pkg) in
    let declared = parse_package_deps_iff content (codes pkg) in
    (λ h. declared.0 (listed.0 h), λ d. listed.1 (declared.1 d))

pub mentions_iff :
    (text : String) (content : List ℕ) → (mentions text content ≡ true) ↔ Mentions text content
unfolding mentions Mentions
mentions_iff text content = search_in_iff _ content

pub mentions-false_iff :
    (text : String) (content : List ℕ) → (mentions text content ≡ false) ↔ (¬ Mentions text content)
unfolding mentions Mentions
mentions-false_iff text content = false_iff _ (search_in_iff _ content)

depends-false_iff :
    (content : List ℕ) (pkg : String)
    → (contains (parse_package_deps content) (codes pkg) ≡ false) ↔ (¬ DependsOn content pkg)
depends-false_iff content pkg = false_iff _ (depends_iff content pkg)

pub is_empty-report_if_iff :
    (b : Bool) (v : Violation) → (is_empty (report_if b v) ≡ true) ↔ (b ≡ false)
is_empty-report_if_iff true v = (λ h. cc, λ h. cc)
is_empty-report_if_iff false v = (λ h. refl, λ h. refl)

-- A list of findings is empty if its first test fails and the others find nothing.
pub first_report_iff :
    (b : Bool) (v : Violation) (vs : List Violation)
    → (is_empty (report_if b v ++ vs) ≡ true) ↔ ((b ≡ false) × (is_empty vs ≡ true))
first_report_iff true v vs = (λ h. cc, λ h. cc)
first_report_iff false v vs = (λ h. (refl, h), λ h. h.1)

All-same_iff :
    {A : Type 0} (P Q : A → Type 0) (same : (x : A) → P x ↔ Q x) (xs : List A) → All P xs ↔ All Q xs
All-same_iff P Q same [] = (λ h. tt, λ h. tt)
All-same_iff P Q same (x ∷ xs) =
    let rest = All-same_iff P Q same xs in
    (λ (p, ps). ((same x).0 p, rest.0 ps), λ (q, qs). ((same x).1 q, rest.1 qs))

-- `not a and not b`, as a test that fails.
neither_iff : (a b : Bool) → ((not a && not b) ≡ false) ↔ ((a ≡ true → ⊥) → b ≡ true)
neither_iff true b = (λ h n. absurd (n refl), λ h. refl)
neither_iff false true = (λ h n. refl, λ h. refl)
neither_iff false false = (λ h n. cc, λ h. cc (h (λ e. cc)))

core_iff :
    (pkg : String) (content : List ℕ)
    → ((not (pkg == "autonomic") && not (contains (parse_package_deps content) (codes "autonomic")))
        ≡ false)
      ↔ (pkg ≢ "autonomic" → DependsOn content "autonomic")
core_iff pkg content =
    let test =
      neither_iff (pkg == "autonomic")
        (contains (parse_package_deps content) (codes "autonomic")) in
    let named = eq_iff pkg "autonomic" in
    let core = depends_iff content "autonomic" in
    (
      λ h n. core.0 (test.0 h (λ e. n (named.0 e))),
      λ h. test.1 (λ n. core.1 (h (λ e. n (named.1 e)))),
    )

not_present_iff :
    (forbidden : List String) (content : List ℕ)
    → (not (is_empty (select (λ d. contains (parse_package_deps content) (codes d)) forbidden))
        ≡ false)
      ↔ All (λ d. ¬ DependsOn content d) forbidden
not_present_iff forbidden content =
    let present : String → Bool = λ d. contains (parse_package_deps content) (codes d) in
    let none_left = is_empty-select_iff present forbidden in
    let each =
      All-same_iff (λ d. present d ≡ false) (λ d. ¬ DependsOn content d) (depends-false_iff content)
        forbidden in
    (λ h. each.0 (none_left.0 (ground arith)), λ h. ground (arith, none_left.1 (each.1 h)))

umbrella_iff :
    (content : List ℕ)
    → ((mentions "in_umbrella: true" content || mentions "in_umbrella: :true" content) ≡ false)
      ↔ ((¬ Mentions "in_umbrella: true" content) × (¬ Mentions "in_umbrella: :true" content))
umbrella_iff content =
    let plain = mentions-false_iff "in_umbrella: true" content in
    let atom = mentions-false_iff "in_umbrella: :true" content in
    (
      λ h. (plain.0 (ground arith), atom.0 (ground arith)),
      λ (p, a). ground (arith, plain.1 p, atom.1 a),
    )

text_violations_iff :
    (pkg : String) (forbidden : List String) (content : List ℕ)
    → (is_empty (text_violations pkg forbidden content) ≡ true) ↔ ObeysRules pkg forbidden content
unfolding text_violations
text_violations_iff pkg forbidden content =
    let present = not_present_iff forbidden content in
    let core = core_iff pkg content in
    let umbrella = umbrella_iff content in
    let apps = mentions-false_iff "apps_path" content in
    let dev = depends-false_iff content "autonomic_examples_dev" in
    (
      λ h.
          let (a, h1) = (first_report_iff _ _ _).0 h in
          let (b, h2) = (first_report_iff _ _ _).0 h1 in
          let (c, h3) = (first_report_iff _ _ _).0 h2 in
          let (d, h4) = (first_report_iff _ _ _).0 h3 in
          (
            present.0 a,
            core.0 b,
            (umbrella.0 c).0,
            (umbrella.0 c).1,
            apps.0 d,
            dev.0 ((is_empty-report_if_iff _ _).0 h4),
          ),
      λ (a, b, u, v, d, e). (first_report_iff _ _ _).1 (
        present.1 a,
        (first_report_iff _ _ _).1 (
          core.1 b,
          (first_report_iff _ _ _).1 (
            umbrella.1 (u, v),
            (first_report_iff _ _ _).1 (apps.1 d, (is_empty-report_if_iff _ _).1 (dev.1 e)),
          ),
        ),
      ),
    )

package_violations-none :
    (tree : Tree) (pkg : String) (forbidden : List String)
    → tree.mix_file pkg ≡ none
    → is_empty (package_violations tree (pkg, forbidden)) ≡ false
unfolding package_violations
package_violations-none tree pkg forbidden e = rw (package_violations, e) refl

package_violations-some :
    (tree : Tree) (pkg : String) (forbidden : List String) (content : List ℕ)
    → tree.mix_file pkg ≡ some content
    → package_violations tree (pkg, forbidden) ≡ text_violations pkg forbidden content
unfolding package_violations
package_violations-some tree pkg forbidden content e = rw (package_violations, e) refl

pub package_violations_iff :
    (tree : Tree) (rule : String × List String)
    → (is_empty (package_violations tree rule) ≡ true) ↔ PackageObeys tree rule
package_violations_iff tree (pkg, forbidden) = elim (Option-cases (tree.mix_file pkg)) [
  | inl missing ↦ (
    λ h. cc (h, package_violations-none tree pkg forbidden missing),
    λ (content, there, obeys). cc (missing, there),
  )
  | inr (content, there) ↦
      let rules = text_violations_iff pkg forbidden content in
      let same = ap is_empty (package_violations-some tree pkg forbidden content there) in
      (
        λ h. (content, there, rules.0 (sym same ∙ h)),
        λ (other, here, obeys).
            let equal : other ≡ content = some-injective _ _ (sym here ∙ there) in
            same ∙ rules.1 (subst (ObeysRules pkg forbidden) equal obeys),
      )
]
