-- ===== src/Qc/Gate/Log.antt =====
-- What scripts/qc.py reads off a log and off a command line.
use autonomic.Common.{
  ℕ, String, Bool, false, ◌&&◌, List, [], ◌∷◌, ◌++◌, ◌==◌, nat_eq, string_eq, if◌then◌else◌,
}
use autonomic.Common.Text.{codes, text_eq}
use autonomic.Regex.{Regex, char, seq, star, literal, optional, plus, range}

abbrev pub digit : Regex
digit = char (range b'0' b'9')

-- `Result: [1-9][0-9]*(?:/[0-9]+)? passed`
unfoldable pub result_passed : Regex
result_passed = seq (literal (codes "Result: ")) (
    seq (char (range b'1' b'9')) (
      seq (star digit)
        (seq (optional (seq (literal (codes "/")) (plus digit))) (literal (codes " passed")))))

-- `Path(p).name`: the last part that is neither empty nor a dot.
keep_name : List ℕ → List ℕ → List ℕ
keep_name name part = if part == [] then name else if part == b'.' ∷ [] then name else part

name_from : List ℕ → List ℕ → List ℕ → List ℕ
name_from name part [] = keep_name name part
name_from name part (c ∷ cs) =
    let cut = name_from (keep_name name part) [] cs in
    let on = name_from name (part ++ (c ∷ [])) cs in if c == b'/' then cut else on

unfoldable pub path_name : String → List ℕ
unfolding keep_name name_from
path_name p = name_from [] [] (codes p)

-- `len(command) > 1 and Path(command[0]).name == "mix" and command[1] == "test"`
unfoldable pub is_mix_test : List String → Bool
unfolding path_name
is_mix_test [] = false
is_mix_test (program ∷ []) = false
is_mix_test (program ∷ task ∷ rest) = path_name program == codes "mix" && task == "test"
