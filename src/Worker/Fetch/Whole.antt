-- ===== src/Worker/Fetch/Whole.antt =====
-- A broker that serves a response page by page delivers it whole.
use autonomic.Common.{
  ℕ, zero, suc, ◌+◌, ◌≤◌, ◌<◌, String, true, Option, some, List, [], ◌∷◌, ◌++◌, ◌≡◌, refl, sym, ap,
  ◌∙◌, inl, inr, arith, length, take, drop, take_all, length-take, length-drop, leb, leb→le,
  leb-false→lt, Bool-cases,
}
use autonomic.Worker.Socket.Exact.{positive→nonempty}
use autonomic.Worker.Client.{
  Runtime, BrokerClient, value, in_bounds, frame, fetch_request, request_payload,
}
use autonomic.Worker.Client.Roundtrip.{PeerDelivers, roundtrip_iff}
use autonomic.Worker.Fetch.{
  Chunk, Cursor, first_cursor, digest_or, total_or, joined, decoded, fetch_loop, fetch_response,
}
use autonomic.Worker.Fetch.Checks.{
  next_cursor, IsAcceptable, IsAcceptable-accept, IsVerified-verified,
}
use autonomic.Worker.Fetch.Cursors.{joined-snoc, digest_or_same}
use autonomic.Worker.Fetch.Trail.{loop_accepted}

take-nil : (n : ℕ) → take {A = ℕ} n [] ≡ []
take-nil zero = refl
take-nil (suc n) = refl

take-add : (m n : ℕ) (xs : List ℕ) → take (m + n) xs ≡ take m xs ++ take n (drop m xs)
take-add zero n xs = let e : 0 + n ≡ n = omega arith in ap (λ j. take j xs) e
take-add (suc m) n [] = take-nil (suc m + n) ∙ sym (take-nil n)
take-add (suc m) n (x ∷ xs) =
    let e : suc m + n ≡ suc (m + n) = omega arith in
    ap (λ j. take j (x ∷ xs)) e ∙ ap (λ t. x ∷ t) (take-add m n xs)

take-length : (n : ℕ) (xs : List ℕ) → take (length (take n xs)) xs ≡ take n xs
take-length zero xs = refl
take-length (suc n) [] = refl
take-length (suc n) (x ∷ xs) = ap (λ t. x ∷ t) (take-length n xs)

module _ {Value : Type 0} (rt : Runtime Value) (keys : Option Value → Option Chunk)
    (client : BrokerClient) (effect_id : String) (chunk_size : ℕ) (body : List ℕ) (limit : ℕ) where
  -- What the broker puts into an answer for `offset`: the next `limit` bytes or all that are left,
  -- and what it says of them and of the whole response.
  abbrev pub IsPage : ℕ → Chunk → List ℕ → Type 0
  IsPage offset r chunk =
      (chunk ≡ take limit (drop offset body))
      × (r.bytes ≡ length chunk)
      × (r.offset ≡ offset)
      × (r.total_bytes ≡ length body)
      × (r.body_digest ≡ rt.sha256 body)
      × (r.eof ≡ leb (length body) (offset + length chunk))

  -- On each connection a request for an offset within the response fits into a frame, and the
  -- bytes that come back are a response with the page.
  abbrev pub Serves : Type 0
  Serves =
      (k offset : ℕ)
      → offset ≤ length body
      → (v : Option Value) × (r : Chunk) × (chunk : List ℕ) × (let payload =
            request_payload rt client k (fetch_request effect_id offset chunk_size) in
          (in_bounds (length payload) ≡ true)
          × PeerDelivers rt v (rt.peer client.socket_path k (frame payload)))
        × (decoded rt keys (value v) ≡ value (r, chunk))
        × IsPage offset r chunk

  -- The variables of the loop, when the bytes up to the offset have been read.
  abbrev pub IsReading : Cursor → Type 0
  IsReading c =
      (joined c.chunks ≡ take c.offset body)
      × (c.offset ≤ length body)
      × (total_or c.total (length body) ≡ length body)
      × (digest_or c.expected_digest (rt.sha256 body) ≡ rt.sha256 body)

  page-IsAcceptable :
      (c : Cursor) (r : Chunk) (chunk : List ℕ)
      → IsReading c
      → IsPage c.offset r chunk
      → IsAcceptable c r chunk
  page-IsAcceptable c r chunk (read, within, counted, digest) (part, n, o, total, same, eof) =
      (sym n, o, rw (same, digest) refl, rw (total, counted) refl)

  page-IsReading :
      (c : Cursor) (r : Chunk) (chunk : List ℕ)
      → IsReading c
      → IsPage c.offset r chunk
      → IsReading (next_cursor c r chunk)
  page-IsReading c r chunk (read, within, counted, digest) (part, n, o, total, same, eof) =
      let size : length chunk ≡ length (take limit (drop c.offset body)) = ap length part in
      (
        joined-snoc c.chunks chunk
            ∙ ap (λ t. t ++ chunk) read
            ∙ ap (λ t. take c.offset body ++ t)
                (part
                  ∙ sym (take-length limit (drop c.offset body))
                  ∙ ap (λ j. take j (drop c.offset body)) (sym size))
            ∙ sym (take-add c.offset (length chunk) body),
        omega (
          arith,
          within,
          size,
          length-take limit (drop c.offset body),
          length-drop c.offset body,
        ),
        total,
        rw same (digest_or_same (rt.sha256 body)),
      )

  module _ (positive : 0 < limit) (serves : Serves) where
    loop_whole :
        (fuel k : ℕ) (c : Cursor)
        → IsReading c
        → length body < fuel + c.offset
        → fetch_loop rt keys client effect_id chunk_size fuel k c ≡ value body
    loop_whole zero k c reading enough = absurd (omega (arith, reading.1, enough))
    loop_whole (suc fuel) k c reading enough =
        let (v, r, chunk, arrives, parsed, page) = serves k c.offset reading.1 in
        let got = ap (decoded rt keys) ((roundtrip_iff rt v client k _).1 arrives) ∙ parsed in
        let after = page-IsReading c r chunk reading page in
        let size = ap length page.0 in
        let taken = length-take limit (drop c.offset body) in
        let left = length-drop c.offset body in
        let took = IsAcceptable-accept c r chunk (page-IsAcceptable c r chunk reading page) in
        loop_accepted rt keys client effect_id chunk_size fuel k c r chunk _ got took
        ∙ elim (Bool-cases r.eof) [
          | inl ended ↦
              let all = leb→le _ _ (sym page.5 ∙ ended) in
              rw ended (
                IsVerified-verified rt keys _ body
                  (after.0 ∙ take_all _ body all, ap some page.3, ap some page.4))
          | inr on ↦
              let below = leb-false→lt _ _ (sym page.5 ∙ on) in
              let grown : 0 < length chunk = omega (arith, size, taken, left, below, positive) in
              rw (on, positive→nonempty chunk grown)
                (loop_whole fuel (suc k) (next_cursor c r chunk) after
                  (omega (arith, enough, grown)))
        ]

    -- A broker that serves each page in a response, however its bytes are cut into segments,
    -- delivers the whole of the body: the loop ends after at most one round more than the body has
    -- bytes.
    pub fetch_response_whole :
        (k : ℕ)
        → fetch_response rt keys client effect_id chunk_size (suc (length body)) k ≡ value body
    unfolding fetch_response
    fetch_response_whole k =
        loop_whole (suc (length body)) k first_cursor (refl, omega arith, refl, refl) (omega arith)
