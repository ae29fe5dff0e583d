-- ===== src/Common/Text.antt =====
-- Texts as lists of code points, which for the ASCII files of the scripts are their bytes.
use Prim.Native.Char.{code}
use Prim.Native.String.{String}
use Prim.Native.Nat.{ℕ, zero, suc, ◌+◌, ◌/◌, ◌%◌}
use mathlib.Core.Bool.{Bool, true, false, ◌&&◌, ◌||◌}
use mathlib.Core.List.{List, [], ◌∷◌}
use mathlib.Core.Path.{◌≡◌, refl}
use mathlib.Core.Logic.{◌↔◌}
use native.Mathlib.Omega.{arith}
use autonomic.Common.Tests.{Comparable, ltb, ◌==◌, nat_eq, nat_beq_iff, if◌then◌else◌}

abbrev pub codes : String → List ℕ
codes String.[] = []
codes (String.◌∷◌ c s) = code c ∷ codes s

-- `==` on texts that are lists of code points.
abbrev pub list_beq : List ℕ → List ℕ → Bool
list_beq [] [] = true
list_beq [] (d ∷ ds) = false
list_beq (c ∷ cs) [] = false
list_beq (c ∷ cs) (d ∷ ds) = c == d && list_beq cs ds

pub list_beq_iff : (s t : List ℕ) → (list_beq s t ≡ true) ↔ (s ≡ t)
list_beq_iff [] [] = (λ h. refl, λ h. refl)
list_beq_iff [] (d ∷ ds) = (λ h. cc, λ h. cc)
list_beq_iff (c ∷ cs) [] = (λ h. cc, λ h. cc)
list_beq_iff (c ∷ cs) (d ∷ ds) = (
  λ h. ground (arith, nat_beq_iff c d, list_beq_iff cs ds),
  λ h. ground (arith, nat_beq_iff c d, list_beq_iff cs ds),
)

instance abbrev pub text_eq : Comparable (List ℕ)
text_eq = record { alike = list_beq; alike_iff = list_beq_iff }

-- `str(n)`: fuel `n` is enough, since each round divides by ten.
decimal_from : ℕ → ℕ → List ℕ → List ℕ
decimal_from zero n out = (b'0' + n) ∷ out
decimal_from (suc fuel) n out =
    let rest = decimal_from fuel (n / 10) ((b'0' + n % 10) ∷ out) in
    if ltb n 10 then (b'0' + n) ∷ out else rest

unfoldable pub decimal : ℕ → List ℕ
unfolding decimal_from
decimal n = decimal_from n n []

-- `text.startswith(prefix)` and `text.endswith(suffix)`
abbrev pub starts_with : List ℕ → List ℕ → Bool
starts_with [] t = true
starts_with (p ∷ ps) [] = false
starts_with (p ∷ ps) (c ∷ cs) = p == c && starts_with ps cs

abbrev pub ends_with : List ℕ → List ℕ → Bool
ends_with suffix [] = list_beq suffix []
ends_with suffix (c ∷ cs) = list_beq suffix (c ∷ cs) || ends_with suffix cs
