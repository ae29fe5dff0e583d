-- ===== src/Worker/Fetch/Trail.antt =====
-- The chunks behind a response that was returned.
use mathlib.Core.Path.{subst}
use mathlib.Core.List.{append_assoc}
use autonomic.Common.{
  ℕ, zero, suc, ◌+◌, ◌<◌, String, true, false, Option, List, ◌++◌, ◌≡◌, ◌⊎◌, refl, sym, ap, ◌∙◌,
  inl, inr, string_eq, length, is_empty, Bool-cases, if◌then◌else◌,
}
use autonomic.Worker.Socket.Exact.{nonempty→positive}
use autonomic.Worker.Client.{Runtime, BrokerClient, Answer, value, failure, Failure, empty_chunk}
use autonomic.Worker.Fetch.{
  Chunk, Cursor, first_cursor, digest_or, total_or, joined, accept, verified, asked, fetch_loop,
  fetch_response,
}
use autonomic.Worker.Fetch.Checks.{
  next_cursor, IsAcceptable, accept-IsAcceptable, IsVerified, verified-IsVerified,
}
use autonomic.Worker.Fetch.Cursors.{
  Answer-cases, digest_or_same, joined-snoc, digest_fits, digest_back, total_back,
}

module _ {Value : Type 0} (rt : Runtime Value) (keys : Option Value → Option Chunk) where
  module _ (client : BrokerClient) (effect_id : String) (chunk_size : ℕ) (total : ℕ)
      (digest : String) where
    -- A chunk that was asked for on connection `k` at `offset`, and agrees with a body of `total`
    -- bytes and the digest. A text that is empty counts as no digest.
    abbrev pub Fits : ℕ → ℕ → Chunk → List ℕ → Type 0
    Fits k offset r chunk =
        (asked rt keys client effect_id chunk_size k offset ≡ value (r, chunk))
        × (length chunk ≡ r.bytes)
        × (r.offset ≡ offset)
        × (r.total_bytes ≡ total)
        × ((r.body_digest ≡ "") ⊎ (r.body_digest ≡ digest))

    -- The bytes from `offset` on, in chunks that were fetched one behind the other on the
    -- connections from `k` on.
    pub data Trail : ℕ → ℕ → List ℕ → Type 0 where
      final :
          (k offset : ℕ) (r : Chunk) (chunk : List ℕ)
          → Fits k offset r chunk
          → r.eof ≡ true
          → r.body_digest ≡ digest
          → Trail k offset chunk
      further :
          (k offset : ℕ) (r : Chunk) (chunk rest : List ℕ)
          → Fits k offset r chunk
          → r.eof ≡ false
          → 0 < length chunk
          → Trail (suc k) (offset + length chunk) rest
          → Trail k offset (chunk ++ rest)

    -- The variables of the loop do not contradict the total and the digest.
    abbrev pub Agrees : Cursor → Type 0
    Agrees c = (total_or c.total total ≡ total) × ((digest_or c.expected_digest digest ≡ digest))

    Agrees-next_cursor :
        (c : Cursor) (r : Chunk) (chunk : List ℕ)
        → IsAcceptable c r chunk
        → Agrees (next_cursor c r chunk)
        → Agrees c × (r.total_bytes ≡ total) × ((r.body_digest ≡ "") ⊎ (r.body_digest ≡ digest))
    Agrees-next_cursor c r chunk (measured, placed, same, counted) agrees =
        let fits = digest_fits r.body_digest digest agrees.1 in
        (
          (
            total_back c.total _ total counted agrees.0,
            digest_back c.expected_digest _ digest same fits,
          ),
          agrees.0,
          fits,
        )

  module _ (client : BrokerClient) (effect_id : String) (chunk_size : ℕ) where
    abbrev ask : ℕ → ℕ → Answer (Chunk × List ℕ)
    ask = asked rt keys client effect_id chunk_size

    abbrev loop : ℕ → ℕ → Cursor → Answer (List ℕ)
    loop = fetch_loop rt keys client effect_id chunk_size

    loop_failure :
        (fuel k : ℕ) (c : Cursor) (e : Failure)
        → ask k c.offset ≡ failure e
        → loop (suc fuel) k c ≡ failure e
    unfolding fetch_loop
    loop_failure fuel k c e bad = rw (fetch_loop, bad) refl

    loop_refused :
        (fuel k : ℕ) (c : Cursor) (r : Chunk) (chunk : List ℕ) (e : Failure)
        → ask k c.offset ≡ value (r, chunk)
        → accept c r chunk ≡ failure e
        → loop (suc fuel) k c ≡ failure e
    unfolding fetch_loop
    loop_refused fuel k c r chunk e got bad = rw (fetch_loop, got, bad) refl

    pub loop_accepted :
        (fuel k : ℕ) (c : Cursor) (r : Chunk) (chunk : List ℕ) (next : Cursor)
        → ask k c.offset ≡ value (r, chunk)
        → accept c r chunk ≡ value next
        → loop (suc fuel) k c ≡ (
            if r.eof
            then verified rt keys next
            else if is_empty chunk
            then failure empty_chunk
            else loop fuel (suc k) next)
    unfolding fetch_loop
    loop_accepted fuel k c r chunk next got took = rw (fetch_loop, got, took) refl

    abbrev Found : List ℕ → ℕ → Cursor → Type 0
    Found body k c =
        (rest : List ℕ) × (joined c.chunks ++ rest ≡ body)
        × Trail client effect_id chunk_size (length body) (rt.sha256 body) k c.offset rest
        × Agrees client effect_id chunk_size (length body) (rt.sha256 body) c

    final_Trail :
        (body : List ℕ) (k : ℕ) (c : Cursor) (r : Chunk) (chunk : List ℕ)
        → ask k c.offset ≡ value (r, chunk)
        → IsAcceptable c r chunk
        → r.eof ≡ true
        → IsVerified rt keys (next_cursor c r chunk) body
        → Found body k c
    final_Trail body k c r chunk got ok ended (same, counted, expected) =
        let whole : r.body_digest ≡ rt.sha256 body = cc expected in
        let agrees =
          Agrees-next_cursor client effect_id chunk_size (length body) (rt.sha256 body) c r chunk ok
            (cc counted, rw whole (digest_or_same (rt.sha256 body))) in
        (
          chunk,
          sym (joined-snoc c.chunks chunk) ∙ same,
          final k c.offset r chunk (got, ok.0, ok.1, agrees.1, agrees.2) ended whole,
          agrees.0,
        )

    further_Trail :
        (body : List ℕ) (k : ℕ) (c : Cursor) (r : Chunk) (chunk : List ℕ)
        → ask k c.offset ≡ value (r, chunk)
        → IsAcceptable c r chunk
        → r.eof ≡ false
        → is_empty chunk ≡ false
        → Found body (suc k) (next_cursor c r chunk)
        → Found body k c
    further_Trail body k c r chunk got ok on something (rest, join, trail, agrees) =
        let back =
          Agrees-next_cursor client effect_id chunk_size (length body) (rt.sha256 body) c r chunk ok
            agrees in
        (
          chunk ++ rest,
          sym (append_assoc (joined c.chunks) chunk rest)
              ∙ ap (λ t. t ++ rest) (sym (joined-snoc c.chunks chunk))
              ∙ join,
          further k c.offset r chunk rest (got, ok.0, ok.1, back.1, back.2) on
              (nonempty→positive chunk something) trail,
          back.0,
        )

    loop-Trail :
        (body : List ℕ) (fuel k : ℕ) (c : Cursor) → loop fuel k c ≡ value body → Found body k c
    unfolding fetch_loop
    loop-Trail body zero k c h = cc
    loop-Trail body (suc fuel) k c h = elim (Answer-cases (ask k c.offset)) [
      | inl (e, bad) ↦ cc (h, loop_failure fuel k c e bad)
      | inr ((r, chunk), got) ↦ elim (Answer-cases (accept c r chunk)) [
        | inl (e, bad) ↦ cc (h, loop_refused fuel k c r chunk e got bad)
        | inr (next, took) ↦
            let (ok, same) = accept-IsAcceptable c next r chunk took in
            let after = next_cursor c r chunk in
            let g = sym (loop_accepted fuel k c r chunk after (got) (took ∙ ap value same)) ∙ h in
            elim (Bool-cases r.eof) [
              | inl ended ↦
                  final_Trail body k c r chunk got ok ended
                    (verified-IsVerified rt keys after body (rw ended at g))
              | inr on ↦ elim (Bool-cases (is_empty chunk)) [
                | inl nothing ↦ cc (rw (on, nothing) at g)
                | inr something ↦
                    further_Trail body k c r chunk got ok on something
                      (loop-Trail body fuel (suc k) after (rw (on, something) at g))
              ]
            ]
      ]
    ]

  -- A response that is returned is made of the chunks that were asked for one behind the other
  -- from offset 0 on, each but the last not empty and without end of file. Each gave its own
  -- length and offset, the length of the whole response as the total, and as digest an empty text
  -- or the digest of the whole response, the last one that digest.
  pub fetch_response-Trail :
      (client : BrokerClient) (effect_id : String) (chunk_size fuel k : ℕ) (body : List ℕ)
      → fetch_response rt keys client effect_id chunk_size fuel k ≡ value body
      → Trail client effect_id chunk_size (length body) (rt.sha256 body) k 0 body
  unfolding fetch_response
  fetch_response-Trail client effect_id chunk_size fuel k body h =
      let (rest, same, trail, agrees) =
        loop-Trail client effect_id chunk_size body fuel k first_cursor h in
      subst (λ t. Trail client effect_id chunk_size (length body) (rt.sha256 body) k 0 t) same trail
