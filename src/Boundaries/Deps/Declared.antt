-- ===== src/Boundaries/Deps/Declared.antt =====
-- Which dependencies are found in a text.
use mathlib.Core.Path.{subst}
use autonomic.Common.{
  ℕ, Bool, true, false, none, some, List, [], ◌∷◌, ◌++◌, ◌≡◌, ◌↔◌, ◌⊎◌, refl, sym, ap, ◌∙◌, inl,
  inr, arith, nat_eq, is_empty, All, In, Bool-cases, Option-cases, nat_beq_iff,
}
use autonomic.Boundaries.Deps.{is_space, is_word, span, begins, tail, dep_at, parse_package_deps}

-- The name of a dependency stands at the start of the text: a brace, a colon, the name and a comma,
-- with spaces between.
abbrev pub DeclaredAt : List ℕ → List ℕ → Type 0
DeclaredAt name text =
    (spaces : List ℕ) × (more : List ℕ) × (after : List ℕ) × (text
      ≡ b'{' ∷ (spaces ++ (b':' ∷ (name ++ (more ++ (b',' ∷ after))))))
    × All (λ c. is_space c ≡ true) spaces
    × All (λ c. is_word c ≡ true) name
    × (is_empty name ≡ false)
    × All (λ c. is_space c ≡ true) more

-- It stands somewhere in the text.
abbrev pub Declares : List ℕ → List ℕ → Type 0
Declares text name =
    (before : List ℕ) × (rest : List ℕ) × (text ≡ before ++ rest) × DeclaredAt name rest

-- A text that does not go on with the class.
abbrev pub Stops : (ℕ → Bool) → List ℕ → Type 0
Stops p [] = Unit
Stops p (c ∷ cs) = p c ≡ false

pub span_stop :
    (p : ℕ → Bool) (xs rest : List ℕ)
    → All (λ c. p c ≡ true) xs
    → Stops p rest
    → span p (xs ++ rest) ≡ (xs, rest)
unfolding span
span_stop p [] [] all stops = refl
span_stop p [] (c ∷ cs) all stops = rw stops refl
span_stop p (x ∷ xs) rest all stops = rw (all.0, span_stop p xs rest all.1 stops) refl

pub span_parts :
    (p : ℕ → Bool) (s : List ℕ)
    → (s ≡ (span p s).0 ++ (span p s).1) × All (λ c. p c ≡ true) (span p s).0
unfolding span
span_parts p [] = (refl, tt)
span_parts p (c ∷ cs) =
    let (join, all) = span_parts p cs in
    elim (Bool-cases (p c)) [
      | inl taken ↦ rw taken (ap (λ t. c ∷ t) join, (taken, all))
      | inr left ↦ rw left (refl, tt)
    ]

begins-tail : (a : ℕ) (s : List ℕ) → begins a s ≡ true → s ≡ a ∷ tail s
begins-tail a [] h = cc
begins-tail a (c ∷ cs) h = ap (λ d. d ∷ cs) ((nat_beq_iff c a).0 h)

space_no_word : (c : ℕ) → is_space c ≡ true → is_word c ≡ false
space_no_word c h = ground arith

Stops-comma :
    (more after : List ℕ)
    → All (λ c. is_space c ≡ true) more
    → Stops is_word (more ++ (b',' ∷ after))
Stops-comma [] after all = refl
Stops-comma (c ∷ cs) after all = space_no_word c all.0

dep_at_iff : (text name : List ℕ) → (dep_at text ≡ some name) ↔ DeclaredAt name text
unfolding dep_at
dep_at_iff text name = (
  λ h.
      let after = (span is_space (tail text)).1 in
      let word = span is_word (tail after) in
      let behind = (span is_space word.1).1 in
      let brace : begins b'{' text ≡ true = ground arith in
      let colon : begins b':' after ≡ true = ground arith in
      let comma : begins b',' behind ≡ true = ground arith in
      let found : is_empty word.0 ≡ false = ground arith in
      let same : word.0 ≡ name = cc (rw (brace, colon, found, comma) at h) in
      let spaces = span_parts is_space (tail text) in
      let letters = span_parts is_word (tail after) in
      let more = span_parts is_space word.1 in
      let join =
        begins-tail _ text brace
        ∙ ap (λ t. b'{' ∷ t)
            (spaces.0
              ∙ ap (λ t. (span is_space (tail text)).0 ++ t)
                  (begins-tail _ after colon
                    ∙ ap (λ t. b':' ∷ t)
                        (letters.0
                          ∙ ap (λ t. word.0 ++ t)
                              (more.0
                                ∙ ap (λ t. (span is_space word.1).0 ++ t)
                                    (begins-tail _ behind comma))))) in
      subst (λ n. DeclaredAt n text) same (_, _, _, join, spaces.1, letters.1, found, more.1),
  λ (spaces, more, after, join, all_spaces, all_word, found, all_more).
      let to_colon =
        span_stop is_space spaces (b':' ∷ (name ++ (more ++ (b',' ∷ after)))) all_spaces refl in
      let to_end =
        span_stop is_word name (more ++ (b',' ∷ after)) all_word
          (Stops-comma more after all_more) in
      let to_comma = span_stop is_space more (b',' ∷ after) all_more refl in
      rw (join, to_colon, to_end, to_comma, found) refl,
)

nothing_here :
    (c : ℕ) (cs : List ℕ)
    → dep_at (c ∷ cs) ≡ none
    → parse_package_deps (c ∷ cs) ≡ parse_package_deps cs
unfolding parse_package_deps
nothing_here c cs e = rw (parse_package_deps, e) refl

name_here :
    (c : ℕ) (cs name : List ℕ)
    → dep_at (c ∷ cs) ≡ some name
    → parse_package_deps (c ∷ cs) ≡ name ∷ parse_package_deps cs
unfolding parse_package_deps
name_here c cs name e = rw (parse_package_deps, e) refl

found-Declares : (text name : List ℕ) → In name (parse_package_deps text) → Declares text name
unfolding parse_package_deps
found-Declares [] name m = absurd m
found-Declares (c ∷ cs) name m =
    let later : In name (parse_package_deps cs) → Declares (c ∷ cs) name = λ i.
      let (before, rest, join, there) = found-Declares cs name i in
      (c ∷ before, rest, ap (λ t. c ∷ t) join, there) in
    elim (Option-cases (dep_at (c ∷ cs))) [
      | inl nothing ↦ later (subst (In name) (nothing_here c cs nothing) m)
      | inr (n, hit) ↦
          let here : (n ≡ name) ⊎ In name (parse_package_deps cs) =
            subst (In name) (name_here c cs n hit) m in
          elim here [
            | inl same ↦ ([], c ∷ cs, refl, (dep_at_iff _ _).0 (hit ∙ ap some same))
            | inr i ↦ later i
          ]
    ]

Declares-found :
    (before rest name : List ℕ)
    → DeclaredAt name rest
    → In name (parse_package_deps (before ++ rest))
unfolding parse_package_deps
Declares-found [] [] name d = cc d.3
Declares-found [] (c ∷ cs) name d =
    subst (In name) (sym (name_here c cs name ((dep_at_iff (c ∷ cs) name).1 d))) (inl refl)
Declares-found (b ∷ bs) rest name d =
    let later = Declares-found bs rest name d in
    elim (Option-cases (dep_at (b ∷ (bs ++ rest)))) [
      | inl nothing ↦ subst (In name) (sym (nothing_here b (bs ++ rest) nothing)) later
      | inr (n, hit) ↦ subst (In name) (sym (name_here b (bs ++ rest) n hit)) (inr later)
    ]

-- A name is found exactly if it is declared somewhere in the text: behind an opening brace and a
-- colon and before a comma, with nothing but spaces between these.
pub parse_package_deps_iff :
    (text name : List ℕ) → In name (parse_package_deps text) ↔ Declares text name
unfolding parse_package_deps
parse_package_deps_iff text name = (
  found-Declares text name,
  λ (before, rest, join, there). rw join (Declares-found before rest name there),
)
