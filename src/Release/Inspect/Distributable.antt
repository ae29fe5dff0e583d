-- ===== src/Release/Inspect/Distributable.antt =====
-- What the inspection of the built packages promises.
use text.Mathlib.TextEquality.{eq_iff}
use autonomic.Common.{
  ℕ, String, ◌<>◌, true, false, ◌&&◌, List, ◌≡◌, ◌↔◌, refl, sym, ◌⊎◌, inl, inr, arith, ◌==◌, nat_eq,
  string_eq, all_iff, any_iff, contains_iff, All, In, Bool-cases, not_iff,
}
use autonomic.Common.Text.{codes, text_eq, starts_with}
use autonomic.Regex.Edges.{MatchesFrom, leading_search_iff}
use autonomic.Boundaries.Rules.{Mentions, mentions_iff}
use mathlib.Core.Path.{subst}
use autonomic.Release.Stage.{Entry}
use autonomic.Release.Inspect.{
  is_file, exists, read_entry, split_slash, residual_path, mandatory_files, forbidden_parts,
  is_mix_clean, has_inputs, bundles, is_accepted,
}
use autonomic.Release.Inspect.Parts.{PartsOf, split_slash_iff}

abbrev pub IsRegular : String → Entry → Type 0
IsRegular path e = (e.path ≡ path) × (e.is_regular ≡ true)

-- What the entry is unpacked to has this path and is there, or it is below the folder of this path.
abbrev pub IsAt : String → Entry → Type 0
IsAt path e =
    ((e.path ≡ path) × (e.is_present ≡ true))
    ⊎ (starts_with (codes (path <> "/")) (codes e.path) ≡ true)

-- A folder on the entry's path, or the entry itself, has this name.
abbrev pub HasPart : String → Entry → Type 0
HasPart bad e = (parts : List (List ℕ)) × PartsOf (codes e.name) parts × In (codes bad) parts

-- Some entry is so.
abbrev pub Some : (Entry → Type 0) → List Entry → Type 0
Some P files = (e : Entry) × In e files × P e

-- The installation inputs of the two packages that need some.
abbrev pub HasInputs : String → List Entry → Type 0
HasInputs pkg files =
    (pkg ≡ "autonomic_linux" → Some (IsAt "native/autonomic_launcher/Cargo.lock") files)
    × (pkg ≡ "autonomic_postgres" → Some (IsAt "priv/repo/migrations") files)

-- What the package's entries must be.
pub record IsDistributable (pkg : String) (files : List Entry) : Type 0 where
  pub mix : Some (IsRegular "mix.exs") files
  pub no_path : ¬ MatchesFrom residual_path false (read_entry files "mix.exs")
  pub no_umbrella : ¬ Mentions "in_umbrella: true" (read_entry files "mix.exs")
  pub inputs : HasInputs pkg files
  pub mandatory : All (λ path. Some (IsRegular path) files) mandatory_files
  pub no_artifact : All (λ bad. ¬ Some (HasPart bad) files) forbidden_parts

is_file_iff :
    (files : List Entry) (path : String) → (is_file files path ≡ true) ↔ Some (IsRegular path) files
unfolding is_file
is_file_iff files path =
    any_iff (IsRegular path)
      (λ e. (
        λ h. ((eq_iff e.path path).0 (ground arith), ground arith),
        λ (named, regular). ground (arith, (eq_iff e.path path).1 named, regular),
      ))
      files

exists_iff :
    (files : List Entry) (path : String) → (exists files path ≡ true) ↔ Some (IsAt path) files
unfolding exists
exists_iff files path =
    any_iff (IsAt path)
      (λ e. (
        λ h. elim (Bool-cases (e.path == path && e.is_present)) [
          | inl there ↦ inl ((eq_iff e.path path).0 (ground (arith, there)), ground (arith, there))
          | inr below ↦ inr (ground (arith, below))
        ],
        elim [
          | inl (same, there) ↦ ground (arith, (eq_iff e.path path).1 same, there)
          | inr below ↦ ground (arith, below)
        ],
      ))
      files

bundles_iff :
    (files : List Entry) (bad : String) → (bundles files bad ≡ true) ↔ Some (HasPart bad) files
unfolding bundles
bundles_iff files bad =
    any_iff (HasPart bad)
      (λ e.
        let parts = split_slash_iff (codes e.name) in
        let listed = contains_iff (split_slash (codes e.name)) (codes bad) in
        (
          λ h.
              (split_slash (codes e.name), (parts (split_slash (codes e.name))).0 refl, listed.0 h),
          λ (ps, those, m). listed.1 (subst (In (codes bad)) (sym ((parts ps).1 those)) m),
        ))
      files

has_inputs_iff :
    (pkg : String) (files : List Entry) → (has_inputs pkg files ≡ true) ↔ HasInputs pkg files
unfolding has_inputs
has_inputs_iff pkg files =
    let lock = exists_iff files "native/autonomic_launcher/Cargo.lock" in
    let migrations = exists_iff files "priv/repo/migrations" in
    (
      λ h. (
        λ linux. lock.0 (subst (λ p. has_inputs p files ≡ true) linux h),
        λ postgres. migrations.0 (subst (λ p. has_inputs p files ≡ true) postgres h),
      ),
      λ (needs_lock, needs_migrations). elim (Bool-cases (pkg == "autonomic_linux")) [
        | inl linux ↦ rw linux (lock.1 (needs_lock ((eq_iff pkg _).0 linux)))
        | inr other ↦ elim (Bool-cases (pkg == "autonomic_postgres")) [
          | inl postgres ↦
              rw (other, postgres) (migrations.1 (needs_migrations ((eq_iff pkg _).0 postgres)))
          | inr neither ↦ rw (other, neither) refl
        ]
      ],
    )

pub is_accepted_iff :
    (pkg : String) (files : List Entry) → (is_accepted pkg files ≡ true) ↔ IsDistributable pkg files
unfolding is_accepted is_mix_clean
is_accepted_iff pkg files =
    let text = read_entry files "mix.exs" in
    let mix = is_file_iff files "mix.exs" in
    let path = not_iff _ (leading_search_iff residual_path text) in
    let umbrella = not_iff _ (mentions_iff "in_umbrella: true" text) in
    let inputs = has_inputs_iff pkg files in
    let mandatory =
      all_iff (λ name. Some (IsRegular name) files) (is_file_iff files) mandatory_files in
    let artifacts =
      all_iff (λ bad. ¬ Some (HasPart bad) files)
        (λ bad. not_iff (bundles files bad) (bundles_iff files bad)) forbidden_parts in
    (
      λ h. record {
        mix = mix.0 (ground arith);
        no_path = path.0 (ground arith);
        no_umbrella = umbrella.0 (ground arith);
        inputs = inputs.0 (ground arith);
        mandatory = mandatory.0 (ground arith);
        no_artifact = artifacts.0 (ground arith);
      },
      λ ok. ground (
        arith,
        mix.1 ok.mix,
        path.1 ok.no_path,
        umbrella.1 ok.no_umbrella,
        inputs.1 ok.inputs,
        mandatory.1 ok.mandatory,
        artifacts.1 ok.no_artifact,
      ),
    )
