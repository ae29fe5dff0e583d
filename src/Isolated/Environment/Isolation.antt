-- ===== src/Isolated/Environment/Isolation.antt =====
-- What the environment of the commands holds, whatever the caller's does.
use autonomic.Common.{
  ℕ, String, ◌<>◌, false, none, some, List, [], ◌∷◌, ◌≡◌, refl, sym, ap, ◌∙◌, inl, inr, ◌==◌,
  Bool-cases, Option-cases,
}
use autonomic.Common.Text.{codes, text_eq, list_beq_iff}
use autonomic.Isolated.Environment.{
  Environ, set_key, pop_key, get_key, split_lines, tool_and_version, version_key, select_tools,
  override_key, isolated_env,
}

pub get_key-set_key :
    (key value : List ℕ) (env : Environ) → get_key key (set_key key value env) ≡ some value
unfolding get_key set_key
get_key-set_key key value [] = rw ((list_beq_iff key key).1 refl) refl
get_key-set_key key value ((other, old) ∷ env) = elim (Bool-cases (other == key)) [
  | inl same ↦ rw (same, (list_beq_iff key key).1 refl) refl
  | inr ne ↦ rw (ne, ne) (get_key-set_key key value env)
]

pub get_key-set_key_ne :
    (key other value : List ℕ) (env : Environ)
    → (other == key) ≡ false
    → get_key key (set_key other value env) ≡ get_key key env
unfolding get_key set_key
get_key-set_key_ne key other value [] ne = rw ne refl
get_key-set_key_ne key other value ((name, old) ∷ env) ne = elim (Bool-cases (name == other)) [
  | inl same ↦
      let also : (name == key) ≡ false =
        ap (λ n. n == key) ((list_beq_iff name other).0 same) ∙ ne in
      rw (same, ne, also) refl
  | inr differs ↦ rw (differs, get_key-set_key_ne key other value env ne) refl
]

get_key-pop_key : (key : List ℕ) (env : Environ) → get_key key (pop_key key env) ≡ none
unfolding get_key pop_key
get_key-pop_key key [] = refl
get_key-pop_key key ((name, old) ∷ env) = elim (Bool-cases (name == key)) [
  | inl same ↦ rw same (get_key-pop_key key env)
  | inr ne ↦ rw (ne, ne) (get_key-pop_key key env)
]

get_key-pop_key_ne :
    (key other : List ℕ) (env : Environ)
    → (other == key) ≡ false
    → get_key key (pop_key other env) ≡ get_key key env
unfolding get_key pop_key
get_key-pop_key_ne key other [] ne = refl
get_key-pop_key_ne key other ((name, old) ∷ env) ne = elim (Bool-cases (name == other)) [
  | inl same ↦
      let also : (name == key) ≡ false =
        ap (λ n. n == key) ((list_beq_iff name other).0 same) ∙ ne in
      rw (same, also) (get_key-pop_key_ne key other env ne)
  | inr differs ↦ rw (differs, get_key-pop_key_ne key other env ne) refl
]

-- The tools set no key but theirs.
get_key-select_tools :
    (key : List ℕ) (lines : List (List ℕ)) (env out : Environ)
    → ((tool : List ℕ) → (version_key tool == key) ≡ false)
    → select_tools lines env ≡ some out
    → get_key key out ≡ get_key key env
unfolding select_tools
get_key-select_tools key [] env out free h =
    let same : env ≡ out = cc h in ap (get_key key) (sym same)
get_key-select_tools key (line ∷ lines) env out free h =
    elim (Option-cases (tool_and_version line)) [
      | inl malformed ↦ cc (rw (malformed, select_tools) at h)
      | inr ((tool, version), found) ↦
          get_key-select_tools key lines (set_key (version_key tool) version env) out free
            (rw (found, select_tools) at h)
          ∙ get_key-set_key_ne key (version_key tool) version env (free tool)
    ]

-- In the environment that the commands' own are made from, Hex has its home below the temporary
-- folder, MIX_ENV is dev, and the override of the SDK's path is not there.
pub isolated_env-get_key :
    (root : String) (environ : Environ) (tool_versions : List ℕ) (env : Environ)
    → isolated_env root environ tool_versions ≡ some env
    → (get_key (codes "HEX_HOME") env ≡ some (codes (root <> "/hex")))
      × (get_key (codes "MIX_ENV") env ≡ some (codes "dev"))
      × (get_key override_key env ≡ none)
unfolding isolated_env
isolated_env-get_key root environ tool_versions env h =
    let home = set_key (codes "HEX_HOME") (codes (root <> "/hex")) environ in
    let mode = set_key (codes "MIX_ENV") (codes "dev") home in
    let lines = split_lines tool_versions in
    let after = pop_key override_key mode in
    (
      get_key-select_tools (codes "HEX_HOME") lines after env (λ tool. refl) h
          ∙ get_key-pop_key_ne (codes "HEX_HOME") override_key mode refl
          ∙ get_key-set_key_ne (codes "HEX_HOME") (codes "MIX_ENV") (codes "dev") home refl
          ∙ get_key-set_key (codes "HEX_HOME") (codes (root <> "/hex")) environ,
      get_key-select_tools (codes "MIX_ENV") lines after env (λ tool. refl) h
          ∙ get_key-pop_key_ne (codes "MIX_ENV") override_key mode refl
          ∙ get_key-set_key (codes "MIX_ENV") (codes "dev") home,
      get_key-select_tools override_key lines after env (λ tool. refl) h
          ∙ get_key-pop_key override_key mode,
    )
