-- ===== src/Worker/Fetch.antt =====
-- `fetch_response` of examples/16_worker_sdk_python/worker_sdk.py.
pub mod Checks
pub mod Cursors
pub mod Trail
pub mod Whole
use autonomic.Common.{
  ℕ, zero, suc, ◌+◌, String, Bool, true, false, not, ◌||◌, Option, none, some, List, [], ◌∷◌, ◌++◌,
  ◌==◌, nat_eq, string_eq, length, is_empty, if◌then◌else◌,
}
use autonomic.Worker.Client.{
  Action, fetch_request, Runtime, BrokerClient, Failure, no_chunk, not_base64, contract_violated,
  metadata_changed, empty_chunk, verification_failed, out_of_fuel, Answer, value, failure,
  roundtrip,
}

-- The keys that are read of a result.
pub record Chunk : Type 0 where
  pub chunk_b64 : String
  pub bytes : ℕ
  pub offset : ℕ
  pub body_digest : String
  pub total_bytes : ℕ
  pub eof : Bool

-- The variables of the loop.
pub record Cursor : Type 0 where
  pub offset : ℕ
  pub chunks : List (List ℕ)
  pub expected_digest : Option String
  pub total : Option ℕ

abbrev pub first_cursor : Cursor
first_cursor = record { offset = 0; chunks = []; expected_digest = none; total = none }

-- `expected_digest or digest`: an empty text is false.
abbrev pub digest_or : Option String → String → String
digest_or none digest = digest
digest_or (some expected) digest = if expected == "" then digest else expected

-- `total if total is not None else total_bytes`
abbrev pub total_or : Option ℕ → ℕ → ℕ
total_or none n = n
total_or (some total) n = total

-- `len(body) == total` and `digest == expected_digest`, where the variable may be None.
abbrev pub is_total : Option ℕ → ℕ → Bool
is_total none n = false
is_total (some total) n = n == total

abbrev pub is_expected : Option String → String → Bool
is_expected none digest = false
is_expected (some expected) digest = digest == expected

-- `b"".join(chunks)`
abbrev pub joined : List (List ℕ) → List ℕ
joined [] = []
joined (chunk ∷ chunks) = chunk ++ joined chunks

-- The checks of one round, and the variables behind it.
unfoldable pub accept : Cursor → Chunk → List ℕ → Answer Cursor
accept c r chunk =
    let expected = digest_or c.expected_digest r.body_digest in
    let total = total_or c.total r.total_bytes in
    if not (length chunk == r.bytes) || not (r.offset == c.offset)
    then failure contract_violated
    else if not (r.body_digest == expected) || not (r.total_bytes == total)
    then failure metadata_changed
    else value (record {
      offset = c.offset + length chunk;
      chunks = c.chunks ++ (chunk ∷ []);
      expected_digest = some expected;
      total = some total;
    })

-- `result_keys` is the reading of the six keys of a result, which fails where one is missing.
module _ {Value : Type 0} (rt : Runtime Value) (result_keys : Option Value → Option Chunk) where
  -- Behind the loop: `len(body) != total or sha256(body).hexdigest() != expected_digest`.
  unfoldable pub verified : Cursor → Answer (List ℕ)
  verified c =
      let body = joined c.chunks in
      if not (is_total c.total (length body))
        || not (is_expected c.expected_digest (rt.sha256 body))
      then failure verification_failed
      else value body

  -- The chunk of a result, decoded.
  abbrev pub decoded : Answer (Option Value) → Answer (Chunk × List ℕ)
  decoded (failure e) = failure e
  decoded (value v) = elim (result_keys v) [
    | none ↦ failure no_chunk
    | some r ↦ elim (rt.b64decode r.chunk_b64) [
      | none ↦ failure not_base64
      | some chunk ↦ value (r, chunk)
    ]
  ]

  module _ (client : BrokerClient) (effect_id : String) (chunk_size : ℕ) where
    abbrev pub asked : ℕ → ℕ → Answer (Chunk × List ℕ)
    asked k offset = decoded (roundtrip rt client k (fetch_request effect_id offset chunk_size))

    -- The loop, on the connections from `k` on.
    unfoldable pub fetch_loop : ℕ → ℕ → Cursor → Answer (List ℕ)
    unfolding accept verified
    fetch_loop zero k c = failure out_of_fuel
    fetch_loop (suc fuel) k c = elim (asked k c.offset) [
      | failure e ↦ failure e
      | value (r, chunk) ↦ elim (accept c r chunk) [
        | failure e ↦ failure e
        | value next ↦
            let later = fetch_loop fuel (suc k) next in
            if r.eof then verified next else if is_empty chunk then failure empty_chunk else later
      ]
    ]

    unfoldable pub fetch_response : ℕ → ℕ → Answer (List ℕ)
    unfolding fetch_loop
    fetch_response fuel k = fetch_loop fuel k first_cursor
