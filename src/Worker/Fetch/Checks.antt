-- ===== src/Worker/Fetch/Checks.antt =====
-- What a response that was returned has been checked against.
use autonomic.Common.{
  ℕ, ◌+◌, String, true, Option, none, some, List, [], ◌∷◌, ◌++◌, ◌≡◌, refl, sym, ap, ◌∙◌, arith,
  ◌==◌, nat_eq, string_eq, length, nat_beq_iff,
}
use text.Mathlib.TextEquality.{eq_iff}
use autonomic.Worker.Client.{Runtime, value}
use autonomic.Worker.Fetch.{
  Chunk, Cursor, digest_or, total_or, joined, accept, verified, is_total, is_expected,
}

-- The variables behind a round whose checks succeed.
abbrev pub next_cursor : Cursor → Chunk → List ℕ → Cursor
next_cursor c r chunk = record {
  offset = c.offset + length chunk;
  chunks = c.chunks ++ (chunk ∷ []);
  expected_digest = some r.body_digest;
  total = some r.total_bytes;
}

-- The conditions of the checks.
abbrev pub IsAcceptable : Cursor → Chunk → List ℕ → Type 0
IsAcceptable c r chunk =
    (length chunk ≡ r.bytes)
    × (r.offset ≡ c.offset)
    × (r.body_digest ≡ digest_or c.expected_digest r.body_digest)
    × (r.total_bytes ≡ total_or c.total r.total_bytes)

pub accept-IsAcceptable :
    (c next : Cursor) (r : Chunk) (chunk : List ℕ)
    → accept c r chunk ≡ value next
    → IsAcceptable c r chunk × (next ≡ next_cursor c r chunk)
unfolding accept
accept-IsAcceptable c next r chunk h =
    let digest = digest_or c.expected_digest r.body_digest in
    let total = total_or c.total r.total_bytes in
    let measured : (length chunk == r.bytes) ≡ true = ground arith in
    let placed : (r.offset == c.offset) ≡ true = ground arith in
    let same : (r.body_digest == digest) ≡ true = ground arith in
    let counted : (r.total_bytes == total) ≡ true = ground arith in
    let equal = (eq_iff _ _).0 same in
    let as_many = (nat_beq_iff _ _).0 counted in
    (
      ((nat_beq_iff _ _).0 measured, (nat_beq_iff _ _).0 placed, equal, as_many),
      cc (rw (measured, placed, same, counted) at h, equal, as_many),
    )

pub IsAcceptable-accept :
    (c : Cursor) (r : Chunk) (chunk : List ℕ)
    → IsAcceptable c r chunk
    → accept c r chunk ≡ value (next_cursor c r chunk)
unfolding accept
IsAcceptable-accept c r chunk (measured, placed, same, counted) =
    rw
      (
        (nat_beq_iff _ _).1 measured,
        (nat_beq_iff _ _).1 placed,
        (eq_iff _ _).1 same,
        (nat_beq_iff _ _).1 counted,
      )
      cc

is_total→eq : (t : Option ℕ) (n : ℕ) → is_total t n ≡ true → t ≡ some n
is_total→eq none n h = cc
is_total→eq (some t) n h = ap some (sym ((nat_beq_iff n t).0 h))

is_expected→eq : (e : Option String) (d : String) → is_expected e d ≡ true → e ≡ some d
is_expected→eq none d h = cc
is_expected→eq (some e) d h = ap some (sym ((eq_iff d e).0 h))

module _ {Value : Type 0} (rt : Runtime Value) (keys : Option Value → Option Chunk) where
  -- What the comparison behind the loop establishes.
  abbrev pub IsVerified : Cursor → List ℕ → Type 0
  IsVerified c body =
      (joined c.chunks ≡ body)
      × (c.total ≡ some (length body))
      × (c.expected_digest ≡ some (rt.sha256 body))

  pub verified-IsVerified :
      (c : Cursor) (body : List ℕ) → verified rt keys c ≡ value body → IsVerified c body
  unfolding verified
  verified-IsVerified c body h =
      let all = joined c.chunks in
      let counted : is_total c.total (length all) ≡ true = ground arith in
      let expected : is_expected c.expected_digest (rt.sha256 all) ≡ true = ground arith in
      let same : all ≡ body = cc (rw (counted, expected) at h) in
      (
        same,
        is_total→eq _ _ counted ∙ ap (λ b. some (length b)) same,
        is_expected→eq _ _ expected ∙ ap (λ b. some (rt.sha256 b)) same,
      )

  pub IsVerified-verified :
      (c : Cursor) (body : List ℕ) → IsVerified c body → verified rt keys c ≡ value body
  unfolding verified
  IsVerified-verified c body (same, counted, expected) =
      rw
        (
          same,
          counted,
          expected,
          (nat_beq_iff (length body) (length body)).1 refl,
          (eq_iff (rt.sha256 body) (rt.sha256 body)).1 refl,
        )
        refl
