-- ===== src/Release/Samples.antt =====
-- A small checkout, and a `mix hex.build` that packs the files it finds.
use autonomic.Common.{
  ℕ, String, ◌<>◌, true, false, List, [], ◌∷◌, ◌++◌, ◌==◌, string_eq, if◌then◌else◌,
}
use autonomic.Common.Text.{codes}
use autonomic.Release.Copy.{folder, no_more}
use autonomic.Release.Packages.{Package, Repository}
use autonomic.Release.Stage.{Files, Entry, entries, archive}
use autonomic.Release.Build.{Hex}

abbrev pub sample_mix : String → List ℕ
sample_mix pkg = codes (
    ("app: :" <> pkg)
    <> " @version \"0.1.0\" licenses: [\"MIT\"] package: description: docs: "
    <> (if pkg == "autonomic" then "" else "{:autonomic, path: \"a\"}"))

abbrev pub sample_package : String → Package
sample_package pkg = record {
  tree = folder ("mix.exs" ∷ "README.md" ∷ "LICENSE" ∷ "CHANGELOG.md" ∷ []) no_more;
  read = λ dirs name. if name == "mix.exs" then sample_mix pkg else [];
}

abbrev pub sample_repository : Repository
sample_repository = record {
  has_lint = true;
  has_root_project = false;
  sources = [];
  package_at = sample_package;
}

abbrev pub regular_entry : String → List ℕ → Entry
regular_entry name text = record {
  name = name;
  path = name;
  is_present = true;
  is_regular = true;
  text = text;
}

abbrev pub sample_inputs : String → List Entry
sample_inputs pkg =
    if pkg == "autonomic_linux"
    then regular_entry "native/autonomic_launcher/Cargo.lock" [] ∷ []
    else if pkg == "autonomic_postgres"
    then regular_entry "priv/repo/migrations/1.exs" [] ∷ []
    else []

abbrev pub packed : Files → List Entry
packed [] = []
packed (((dirs, name), text) ∷ files) = regular_entry name text ∷ packed files

abbrev pub sample_hex : Hex
sample_hex pkg files = record {
  code = 0;
  tarballs =
      (
        pkg <> "-0.1.0.tar",
        archive ("VERSION" ∷ "contents.tar.gz" ∷ []) (entries (sample_inputs pkg ++ packed files)),
      )
      ∷ [];
}
