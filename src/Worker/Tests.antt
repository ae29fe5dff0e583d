-- ===== src/Worker/Tests.antt =====
-- A broker that serves the response "hello" two bytes at a time, in segments of one to three
-- bytes.
use autonomic.Common.{
  ℕ, zero, suc, String, true, Option, none, some, List, [], ◌∷◌, ◌++◌, ◌≡◌, refl, ◌↔◌, ◌≤◌, ◌+◌,
  ◌==◌, nat_eq, length, take, drop, leb, if◌then◌else◌, arith,
}
use autonomic.Common.Text.{codes}
use autonomic.Worker.Socket.{unpack, recv_exact, closed}
use autonomic.Worker.Socket.Exact.{Exact, recv_exact-Exact}
use autonomic.Worker.Client.{
  Action, status_request, fetch_request, Response, Runtime, BrokerClient, value, in_bounds,
  max_frame, frame, request_payload, roundtrip, prepare, evaluate, commit, abort, status,
}
use autonomic.Worker.Client.Roundtrip.{Announces, PeerDelivers, frame-Announces, roundtrip_iff}
use autonomic.Worker.Fetch.{Chunk, fetch_response}
use autonomic.Worker.Fetch.Trail.{Trail, fetch_response-Trail}
use autonomic.Worker.Fetch.Whole.{Serves, fetch_response_whole}

abbrev hello : List ℕ
hello = codes "hello"

abbrev text_at : ℕ → String
text_at zero = "he"
text_at (suc zero) = "el"
text_at (suc (suc zero)) = "ll"
text_at (suc (suc (suc zero))) = "lo"
text_at (suc (suc (suc (suc zero)))) = "o"
text_at (suc (suc (suc (suc (suc n))))) = ""

codes-text_at : (n : ℕ) → codes (text_at n) ≡ take 2 (drop n hello)
codes-text_at zero = refl
codes-text_at (suc zero) = refl
codes-text_at (suc (suc zero)) = refl
codes-text_at (suc (suc (suc zero))) = refl
codes-text_at (suc (suc (suc (suc zero)))) = refl
codes-text_at (suc (suc (suc (suc (suc zero))))) = refl
codes-text_at (suc (suc (suc (suc (suc (suc n)))))) = refl

abbrev hash : List ℕ → String
hash bytes = if length bytes == 5 then "5a" else "00"

abbrev chunk_at : ℕ → Chunk
chunk_at n = record {
  chunk_b64 = text_at n;
  bytes = length (codes (text_at n));
  offset = n;
  body_digest = "5a";
  total_bytes = 5;
  eof = leb 5 (n + length (codes (text_at n)));
}

abbrev offset_of : Action Chunk → ℕ
offset_of (fetch_request id offset limit) = offset
offset_of _ = 0

abbrev parse : List ℕ → Option (Response Chunk)
parse [] = none
parse (n ∷ rest) = some (record { ok = true; error = none; result = some (chunk_at n) })

abbrev server : Runtime Chunk
server = record {
  uuid = λ k. "00";
  dumps = λ request. offset_of request.action ∷ [];
  loads = parse;
  empty_dict = chunk_at 0;
  b64encode = λ bytes. "";
  b64decode = λ text. some (codes text);
  sha256 = hash;
  peer = λ path k sent. some ((0 ∷ 0 ∷ 0 ∷ []) ∷ (1 ∷ []) ∷ drop 4 sent ∷ []);
}

abbrev worker : BrokerClient
worker = record { socket_path = "/run/broker.sock"; epoch = 7 }

-- A stream that ends early, and one that goes on.
closed_early : recv_exact ((1 ∷ 2 ∷ []) ∷ [] ∷ (3 ∷ []) ∷ []) 3 ≡ closed
unfolding recv_exact
closed_early = refl

recv_exact-Exact_example :
    Exact 3 (1 ∷ 2 ∷ 3 ∷ 4 ∷ []) (recv_exact ((1 ∷ 2 ∷ []) ∷ (3 ∷ 4 ∷ []) ∷ []) 3)
recv_exact-Exact_example = recv_exact-Exact ((1 ∷ 2 ∷ []) ∷ (3 ∷ 4 ∷ []) ∷ []) 3

frame-Announces_example :
    Announces (frame hello ++ (9 ∷ [])) hello × (length (frame hello) ≤ 4 + max_frame)
frame-Announces_example = frame-Announces hello (9 ∷ []) refl

roundtrip_iff_example :
    (roundtrip server worker 3 (status_request "e1") ≡ value (some (chunk_at 0))) ↔ (
      let payload = request_payload server worker 3 (status_request "e1") in
      (in_bounds (length payload) ≡ true)
      × PeerDelivers server (some (chunk_at 0)) (server.peer "/run/broker.sock" 3 (frame payload)))
roundtrip_iff_example = roundtrip_iff server (some (chunk_at 0)) worker 3 (status_request "e1")

actions_run :
    (status server worker 0 "e1" ≡ value (some (chunk_at 0)))
    × (evaluate server worker 1 "e1" ≡ value (some (chunk_at 0)))
    × (commit server worker 2 "e1" ≡ value (some (chunk_at 0)))
    × (abort server worker 3 "e1" ≡ value (some (chunk_at 0)))
    × (prepare server worker 4 "l1" "http_read" "t1" hello none ≡ value (some (chunk_at 0)))
unfolding roundtrip recv_exact frame status unpack evaluate commit abort prepare
actions_run = (refl, refl, refl, refl, refl)

abbrev keys : Option Chunk → Option Chunk
keys r = r

served : Serves server keys worker "e1" 2 hello 2
unfolding frame unpack
served k n within = (
  some (chunk_at n),
  chunk_at n,
  codes (text_at n),
  (refl, (n ∷ [], (0 ∷ 0 ∷ 0 ∷ 1 ∷ [], [], refl, refl, refl), refl, (_, refl, refl, refl))),
  refl,
  (codes-text_at n, refl, refl, refl, refl, refl),
)

fetch_response_whole_example : fetch_response server keys worker "e1" 2 6 0 ≡ value hello
fetch_response_whole_example =
    fetch_response_whole server keys worker "e1" 2 hello 2 (omega arith) served 0

fetch_response-Trail_example : Trail server keys worker "e1" 2 5 "5a" 0 0 hello
fetch_response-Trail_example =
    fetch_response-Trail server keys worker "e1" 2 6 0 hello fetch_response_whole_example
