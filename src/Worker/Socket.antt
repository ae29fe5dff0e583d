-- ===== src/Worker/Socket.antt =====
-- Frames on a stream socket: `struct.pack` and `_recv_exact` of
-- examples/16_worker_sdk_python/worker_sdk.py.
pub mod Exact
use autonomic.Common.{
  ℕ, zero, suc, ◌+◌, ◌-◌, ◌*◌, ◌/◌, ◌%◌, List, [], ◌∷◌, ◌++◌, leb, length, take, drop, is_empty,
  if◌then◌else◌,
}

-- `struct.pack(">I", n)`, for an `n` below 2 ^ 32.
unfoldable pub pack : ℕ → List ℕ
pack n = n / 16777216 % 256 ∷ n / 65536 % 256 ∷ n / 256 % 256 ∷ n % 256 ∷ []

-- `struct.unpack(">I", header)[0]`, where `header` has four bytes.
unfoldable pub unpack : List ℕ → ℕ
unpack [] = 0
unpack (a ∷ []) = 0
unpack (a ∷ b ∷ []) = 0
unpack (a ∷ b ∷ c ∷ []) = 0
unpack (a ∷ b ∷ c ∷ d ∷ rest) = a * 16777216 + b * 65536 + c * 256 + d

-- What the kernel hands over, segment by segment; an empty segment is the end of the stream.
abbrev pub Socket : Type 0
Socket = List (List ℕ)

-- `sock.recv(n)`, and the socket that is left.
unfoldable pub recv : ℕ → Socket → List ℕ × Socket
recv n [] = ([], [])
recv n ([] ∷ segs) = ([], [])
recv n ((b ∷ bs) ∷ segs) =
    let seg = b ∷ bs in if leb (length seg) n then (seg, segs) else (take n seg, drop n seg ∷ segs)

-- `_recv_exact` returns the bytes or raises. `unfinished` is the end of the model's fuel.
pub data Received : Type 0 where
  received : List ℕ → Socket → Received
  closed : Received
  unfinished : Received

-- The loop, with the bytes that it has collected.
unfoldable pub recv_loop : ℕ → ℕ → List ℕ → Socket → Received
unfolding recv
recv_loop zero size out sock = unfinished
recv_loop (suc fuel) size out sock =
    let next = recv (size - length out) sock in
    let later = recv_loop fuel size (out ++ next.0) next.1 in
    if leb size (length out) then received out sock else if is_empty next.0 then closed else later

unfoldable pub recv_exact : Socket → ℕ → Received
unfolding recv_loop
recv_exact sock size = recv_loop (suc size) size [] sock
