-- ===== src/Qc/Inventory/Laws/Secrets.antt =====
-- What a passed secret scan excludes.
use mathlib.Core.Path.{subst}
use mathlib.Core.Option.{some-injective}
use autonomic.Common.{
  ap, ltb→lt, ltb-false→le, ℕ, String, Bool, true, false, ◌≤◌, some, List, [], ◌∷◌, ◌≡◌, refl, ◌↔◌,
  inl, inr, arith, All, length, ltb, is_empty-append, is_empty, Bool-cases, Option-cases, false_iff,
}
use autonomic.Regex.{search_in}
use autonomic.Regex.Matching.{MatchesInside, search_in_iff}
use autonomic.Regex.Words.{bounded_search, MatchesBounded, bounded_search_iff}
use autonomic.Qc.Gate.{passed}
use autonomic.Qc.Inventory.Files.{SourceFile, Checkout, source_files, path_text}
use autonomic.Qc.Inventory.Secrets.{
  private_key, aws_access_key, github_token, openai_key, secret_patterns, find_in, size_limit,
  scan_file, scan_all, secret_scan,
}

-- None of the four patterns occurs in the bytes.
abbrev pub HasNoSecret : List ℕ → Type 0
HasNoSecret bytes =
    (¬ MatchesInside private_key bytes)
    × (¬ MatchesBounded aws_access_key false bytes)
    × (¬ MatchesBounded github_token false bytes)
    × (¬ MatchesBounded openai_key false bytes)

-- A file that can be read and is not too large holds no secret.
abbrev pub IsClean : SourceFile → Type 0
IsClean f = (bytes : List ℕ) → f.bytes ≡ some bytes → length bytes ≤ size_limit → HasNoSecret bytes

find_in-empty_iff :
    (path : String) (bytes : List ℕ) (patterns : List (String × (List ℕ → Bool)))
    → (is_empty (find_in path bytes patterns) ≡ true) ↔ All (λ e. e.1 bytes ≡ false) patterns
unfolding find_in
find_in-empty_iff path bytes [] = (λ h. tt, λ h. refl)
find_in-empty_iff path bytes ((name, search) ∷ patterns) =
    let rest = find_in-empty_iff path bytes patterns in
    (λ h. ground (arith, rest.0), λ h. ground (arith, rest.1))

find_in_iff :
    (path : String) (bytes : List ℕ)
    → (is_empty (find_in path bytes secret_patterns) ≡ true) ↔ HasNoSecret bytes
unfolding secret_patterns
find_in_iff path bytes =
    let found = find_in-empty_iff path bytes secret_patterns in
    let key = false_iff (search_in private_key bytes) (search_in_iff private_key bytes) in
    let aws =
      false_iff (bounded_search aws_access_key bytes) (bounded_search_iff aws_access_key bytes) in
    let hub =
      false_iff (bounded_search github_token bytes) (bounded_search_iff github_token bytes) in
    let ai = false_iff (bounded_search openai_key bytes) (bounded_search_iff openai_key bytes) in
    (
      λ h. let all = found.0 h in (key.0 all.0, aws.0 all.1.0, hub.0 all.1.1.0, ai.0 all.1.1.1.0),
      λ (k, a, g, o). found.1 (key.1 k, (aws.1 a, (hub.1 g, (ai.1 o, tt)))),
    )

scan_file_iff : (f : SourceFile) → (is_empty (scan_file f) ≡ true) ↔ IsClean f
unfolding scan_file
scan_file_iff f = elim (Option-cases f.bytes) [
  | inl unreadable ↦ rw (unreadable, scan_file) (λ h bytes e. cc, λ h. refl)
  | inr (bytes, e) ↦ elim (Bool-cases (ltb size_limit (length bytes))) [
    | inl large ↦
        rw (e, scan_file, large)
          (
            λ h other same small.
                absurd
                  (omega (arith, ltb→lt _ _ large, ap length (some-injective bytes other same))),
            λ h. refl,
          )
    | inr small ↦
        rw (e, scan_file, small)
          (
            λ h other same fits.
                subst HasNoSecret (some-injective bytes other same)
                  ((find_in_iff (path_text f.parts) bytes).0 h),
            λ clean.
                (find_in_iff (path_text f.parts) bytes).1
                  (clean bytes refl (ltb-false→le size_limit (length bytes) small)),
          )
  ]
]

scan_all-empty_iff :
    (files : List SourceFile) → (is_empty (scan_all files) ≡ true) ↔ All IsClean files
unfolding scan_all
scan_all-empty_iff [] = (λ h. tt, λ h. refl)
scan_all-empty_iff (f ∷ files) =
    let split = is_empty-append (scan_file f) (scan_all files) in
    let here = scan_file_iff f in
    let rest = scan_all-empty_iff files in
    (
      λ h. (here.0 (ground (arith, split, h)), rest.0 (ground (arith, split, h))),
      λ h. rw split (ground (arith, here.1 h.0, rest.1 h.1)),
    )

-- The secret scan passes exactly if no source file that can be read and is not larger than 8 MiB
-- holds a private key's header, or an access key or token that stands between word boundaries.
pub secret_scan_passed_iff :
    (c : Checkout) → ((secret_scan c).status ≡ passed) ↔ All IsClean (source_files c)
unfolding secret_scan
secret_scan_passed_iff c =
    let scan = scan_all-empty_iff (source_files c) in
    (λ h. scan.0 (ground arith), λ clean. rw (scan.1 clean) refl)
