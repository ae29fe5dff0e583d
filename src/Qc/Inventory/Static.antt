-- ===== src/Qc/Inventory/Static.antt =====
-- `static_inventory` of scripts/qc.py.
use autonomic.Common.{
  ℕ, suc, String, ◌<>◌, Bool, true, false, not, ◌&&◌, ◌||◌, Option, none, some, List, [], ◌∷◌, ◌++◌,
  ◌==◌, nat_eq, string_eq, leb, length, any, select, is_empty, if◌then◌else◌,
}
use autonomic.Common.Text.{codes, text_eq}
use autonomic.Qc.Gate.{Gate, passed, failed}
use autonomic.Qc.Inventory.Files.{
  SourceFile, Checkout, is_skipped, source_files, path_text, last_part, suffix,
}

unfoldable pub required_files : List String
required_files =
    "README.md" ∷ "HANDOFF.md" ∷ "docs/ARCHITECTURE.md" ∷ "docs/SECURITY.md" ∷ "docs/OPERATIONS.md"
    ∷ "docs/DEVELOPMENT.md" ∷ "docs/PERSISTENCE_RECOVERY.md" ∷ "docs/EFFECT_ADAPTERS.md"
    ∷ "docs/TYPESAFE_SENSORS.md" ∷ "docs/IMPLEMENTATION_CHECKLIST.md" ∷ "docs/PONCHO_MIGRATION.md"
    ∷ "docs/PONCHO_IMPLEMENTATION_CHECKLIST.md" ∷ "scripts/preflight.sh"
    ∷ "scripts/lint_package_boundaries.py" ∷ "scripts/release.py"
    ∷ "packages/autonomic/lib/autonomic/effect_broker.ex"
    ∷ "packages/autonomic_postgres/priv/repo/migrations/20260917000000_create_autonomic_tables.exs"
    ∷ "packages/autonomic_linux/lib/autonomic/linux/backend.ex"
    ∷ "packages/autonomic_typesafe/lib/autonomic/typesafe/bank.ex"
    ∷ "packages/autonomic_linux/native/autonomic_launcher/src/main.rs"
    ∷ "integration/autonomic_acceptance/test/coding_agent_test.exs"
    ∷ "integration/autonomic_acceptance/test/class4_horizon_test.exs" ∷ []

-- `(ROOT / path).is_file()`
unfoldable pub has_file : Checkout → String → Bool
has_file c path = any (λ f. path_text f.parts == path) c.files

unfoldable pub missing_files : Checkout → List String
unfolding has_file
missing_files c = select (λ path. not (has_file c path)) required_files

-- `name.endswith(".json")`, by which `ROOT.rglob("*.json")` selects.
abbrev pub is_json : List ℕ → Bool
is_json [] = false
is_json (c ∷ cs) = (c ∷ cs) == codes ".json" || is_json cs

-- The loop over the JSON files. It skips by all parts of the path, those of the root too.
unfoldable pub json_errors : Checkout → List SourceFile → List String
unfolding is_skipped
json_errors c [] = []
json_errors c (f ∷ files) =
    let rest = json_errors c files in
    if is_json (codes (last_part f.parts)) && not (is_skipped (c.root_parts ++ f.parts))
    then elim f.json_error [ none ↦ rest | some e ↦ (path_text f.parts <> (": " <> e)) ∷ rest ]
    else rest

abbrev pub manifest_errors : Option String → List String
manifest_errors none = []
manifest_errors (some e) =
    ("packages/autonomic_linux/native/autonomic_launcher/Cargo.toml: " <> e) ∷ []

unfoldable pub parse_errors : Checkout → List String
unfolding json_errors
parse_errors c = json_errors c c.files ++ manifest_errors c.manifest_error

-- The line ends of `str.splitlines`.
abbrev pub is_line_end : ℕ → Bool
is_line_end c =
    c == 10
    || (c == 13
        || (c == 11
            || (c == 12
                || (c == 28 || (c == 29 || (c == 30 || (c == 133 || (c == 8232 || c == 8233))))))))

-- `text.splitlines()`; a carriage return and a line feed behind it are one end.
lines_from : (behind_return : Bool) → (line : List ℕ) → List ℕ → List (List ℕ)
lines_from behind_return [] [] = []
lines_from behind_return (d ∷ line) [] = (d ∷ line) ∷ []
lines_from behind_return line (c ∷ cs) =
    let joined = lines_from false line cs in
    let ended = line ∷ lines_from (c == 13) [] cs in
    let longer = lines_from false (line ++ (c ∷ [])) cs in
    if behind_return && c == 10 then joined else if is_line_end c then ended else longer

unfoldable pub splitlines : List ℕ → List (List ℕ)
unfolding lines_from
splitlines text = lines_from false [] text

-- `line.endswith(" ") or line.endswith("\t")`
abbrev pub trails : List ℕ → Bool
trails [] = false
trails (c ∷ []) = c == b' ' || c == 9
trails (c ∷ d ∷ cs) = trails (d ∷ cs)

abbrev pub checked_suffixes : List (List ℕ)
checked_suffixes =
    codes ".ex"
    ∷ codes ".exs"
    ∷ codes ".rs"
    ∷ codes ".py"
    ∷ codes ".sh"
    ∷ codes ".md"
    ∷ codes ".json"
    ∷ codes ".toml"
    ∷ []

-- A file's path and a line's number, which are printed with a colon between them.
abbrev pub Place : Type 0
Place = String × ℕ

abbrev pub place_limit : ℕ
place_limit = 50

-- The loop over the lines of a file, with `bad_whitespace` as it stands before.
unfoldable pub scan_lines : String → ℕ → List (List ℕ) → List Place → List Place
scan_lines path number [] bad = bad
scan_lines path number (line ∷ lines) bad =
    let more = bad ++ ((path, number) ∷ []) in
    let found = scan_lines path (suc number) lines more in
    let rest = scan_lines path (suc number) lines bad in
    if trails line then (if leb place_limit (length more) then more else found) else rest

-- The lines of a file that are looked at: none where the suffix is another or reading fails.
unfoldable pub checked_lines : SourceFile → List (List ℕ)
unfolding suffix splitlines
checked_lines f =
    if any (λ s. s == suffix (last_part f.parts)) checked_suffixes
    then elim f.text [ none ↦ [] | some text ↦ splitlines text ]
    else []

-- A file that is not looked at is passed over by `continue`, before the test that ends the loop.
unfoldable pub is_checked : SourceFile → Bool
unfolding suffix
is_checked f = any (λ s. s == suffix (last_part f.parts)) checked_suffixes

unfoldable pub scan_files : List SourceFile → List Place → List Place
unfolding scan_lines checked_lines
scan_files [] bad = bad
scan_files (f ∷ files) bad =
    let seen = scan_lines (path_text f.parts) 1 (checked_lines f) bad in
    let rest = scan_files files seen in
    if is_checked f && leb place_limit (length seen) then seen else rest

unfoldable pub bad_whitespace : Checkout → List Place
unfolding scan_files
bad_whitespace c = scan_files (source_files c) []

-- The gate, without its three lists.
unfoldable pub static_inventory : Checkout → Gate
static_inventory c = record {
  id = "source_contract_inventory";
  status =
      if is_empty (missing_files c) && (is_empty (parse_errors c) && is_empty (bad_whitespace c))
      then passed
      else failed;
  mandatory = true;
  command = [];
  exit_code = none;
  reason = none;
  evidence_gate = none;
}
