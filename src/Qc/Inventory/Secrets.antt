-- ===== src/Qc/Inventory/Secrets.antt =====
-- SECRET_PATTERNS and `secret_scan` of scripts/qc.py.
use autonomic.Common.{
  ℕ, ◌*◌, String, Bool, true, ◌||◌, none, some, List, [], ◌∷◌, ◌++◌, ◌==◌, nat_eq, ltb, length,
  is_empty, if◌then◌else◌,
}
use autonomic.Common.Text.{codes}
use autonomic.Regex.{Regex, char, seq, alt, star, literal, optional, times, range, search_in}
use autonomic.Regex.Words.{bounded_search}
use autonomic.Qc.Gate.{Gate, passed, failed}
use autonomic.Qc.Inventory.Files.{SourceFile, Checkout, source_files, path_text}

-- `-----BEGIN (?:RSA |EC |OPENSSH )?PRIVATE KEY-----`
unfoldable pub private_key : Regex
private_key = seq (literal (codes "-----BEGIN ")) (
    seq
      (optional
        (alt (literal (codes "RSA ")) (alt (literal (codes "EC ")) (literal (codes "OPENSSH ")))))
      (literal (codes "PRIVATE KEY-----")))

abbrev upper_or_digit : ℕ → Bool
upper_or_digit c = range b'0' b'9' c || range b'A' b'Z' c

abbrev alphanumeric : ℕ → Bool
alphanumeric c = range b'A' b'Z' c || (range b'a' b'z' c || range b'0' b'9' c)

abbrev key_character : ℕ → Bool
key_character c = alphanumeric c || (c == b'_' || c == b'-')

-- `r{n,}`
abbrev at_least : ℕ → Regex → Regex
at_least n r = seq (times n r) (star r)

-- `\bAKIA[0-9A-Z]{16}\b`, its boundaries left out here and below.
unfoldable pub aws_access_key : Regex
aws_access_key = seq (literal (codes "AKIA")) (times 16 (char upper_or_digit))

-- `\bgh[pousr]_[A-Za-z0-9]{30,}\b`
unfoldable pub github_token : Regex
github_token = seq (literal (codes "gh")) (
    seq (char (λ c. c == b'p' || (c == b'o' || (c == b'u' || (c == b's' || c == b'r')))))
      (seq (literal (codes "_")) (at_least 30 (char alphanumeric))))

-- `\bsk-[A-Za-z0-9_-]{32,}\b`
unfoldable pub openai_key : Regex
openai_key = seq (literal (codes "sk-")) (at_least 32 (char key_character))

-- A pattern's name, and whether it is found.
unfoldable pub secret_patterns : List (String × (List ℕ → Bool))
secret_patterns =
    ("private_key", search_in private_key)
    ∷ ("aws_access_key", bounded_search aws_access_key)
    ∷ ("github_token", bounded_search github_token)
    ∷ ("openai_key", bounded_search openai_key)
    ∷ []

-- A file's path and a pattern's name.
abbrev pub Finding : Type 0
Finding = String × String

unfoldable pub find_in : String → List ℕ → List (String × (List ℕ → Bool)) → List Finding
find_in path bytes [] = []
find_in path bytes ((name, search) ∷ patterns) =
    let rest = find_in path bytes patterns in if search bytes then (path, name) ∷ rest else rest

abbrev pub size_limit : ℕ
size_limit = 8 * 1024 * 1024

-- One round of the loop over the files: an unreadable or a large file is passed over.
unfoldable pub scan_file : SourceFile → List Finding
unfolding secret_patterns find_in
scan_file f = elim f.bytes [
  | none ↦ []
  | some bytes ↦
      if ltb size_limit (length bytes)
      then []
      else find_in (path_text f.parts) bytes secret_patterns
]

unfoldable pub scan_all : List SourceFile → List Finding
unfolding scan_file
scan_all [] = []
scan_all (f ∷ files) = scan_file f ++ scan_all files

unfoldable pub secret_scan : Checkout → Gate
unfolding scan_all
secret_scan c = record {
  id = "secret_scan";
  status = if is_empty (scan_all (source_files c)) then passed else failed;
  mandatory = true;
  command = [];
  exit_code = none;
  reason = none;
  evidence_gate = none;
}
