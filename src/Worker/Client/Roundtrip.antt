-- ===== src/Worker/Client/Roundtrip.antt =====
-- When a request returns a result.
use mathlib.Core.Path.{subst}
use autonomic.Common.{
  ℕ, ◌≤◌, ◌+◌, Option, some, none, true, List, ◌++◌, ◌≡◌, refl, sym, ap, ◌∙◌, ◌↔◌, inl, inr, arith,
  Bool-cases, length, length-append, [], ◌∷◌,
}
use autonomic.Worker.Socket.{
  Socket, Received, received, closed, unfinished, recv_exact, unpack, pack,
}
use autonomic.Worker.Socket.Exact.{stream, Exact, unpack-pack, recv_exact-Exact}
use autonomic.Worker.Client.{
  Action, max_frame, Response, Runtime, BrokerClient, value, in_bounds, respond, receive_body,
  receive_header, frame, exchange, request_payload, roundtrip,
}

-- Equal joins of parts of equal length have equal parts.
append_parts :
    (xs ys us vs : List ℕ) → length xs ≡ length ys → xs ++ us ≡ ys ++ vs → (xs ≡ ys) × (us ≡ vs)
append_parts [] [] us vs h e = (refl, e)
append_parts [] (y ∷ ys) us vs h e = absurd (omega (arith, h))
append_parts (x ∷ xs) [] us vs h e = absurd (omega (arith, h))
append_parts (x ∷ xs) (y ∷ ys) us vs h e =
    let tails = append_parts xs ys us vs (omega (arith, h)) cc in (cc (e, tails.0), tails.1)

-- The bytes begin with a header of four bytes that announces `payload`, which follows.
abbrev pub Announces : List ℕ → List ℕ → Type 0
Announces s payload =
    (header : List ℕ) × (rest : List ℕ) × (s ≡ header ++ (payload ++ rest))
    × (length header ≡ 4)
    × (unpack header ≡ length payload)

-- The frame of a payload of 1 to MAX_FRAME bytes is a header of four bytes, which is read back as
-- the length of the payload, and the payload; it has at most MAX_FRAME + 4 bytes.
pub frame-Announces :
    (payload rest : List ℕ)
    → in_bounds (length payload) ≡ true
    → Announces (frame payload ++ rest) payload × (length (frame payload) ≤ 4 + max_frame)
unfolding frame pack
frame-Announces payload rest fits =
    let small : length payload ≤ max_frame = ground (arith, fits) in
    (
      (
        pack (length payload),
        rest,
        refl,
        refl,
        unpack-pack (length payload) (omega (arith, small)),
      ),
      omega (arith, small),
    )

module _ {Value : Type 0} (rt : Runtime Value) (result : Option Value) where
  -- `payload` is a response that is ok and has the result.
  abbrev pub Says : List ℕ → Type 0
  Says payload =
      (response : Response Value) × (rt.loads payload ≡ some response)
      × (response.ok ≡ true)
      × (response.result ≡ result)

  abbrev pub Delivers : List ℕ → Type 0
  Delivers s =
      (payload : List ℕ) × Announces s payload × (in_bounds (length payload) ≡ true) × Says payload

  respond-Says :
      (o : Option (Response Value))
      → respond rt o ≡ value result
      → (r : Response Value) × (o ≡ some r) × (r.ok ≡ true) × (r.result ≡ result)
  respond-Says none h = cc
  respond-Says (some r) h = elim (Bool-cases r.ok) [
    | inl good ↦ (r, refl, good, ground arith)
    | inr bad ↦ absurd (ground arith)
  ]

  Says-respond : (body : List ℕ) → Says body → respond rt (rt.loads body) ≡ value result
  Says-respond body (r, parsed, good, same) = rw (parsed, good, same) refl

  body-Says :
      (size : ℕ) (s : List ℕ) (x : Received)
      → Exact size s x
      → receive_body rt x ≡ value result
      → (payload : List ℕ) × (rest : List ℕ) × (s ≡ payload ++ rest)
        × (length payload ≡ size)
        × Says payload
  body-Says size s (received body rest) e h =
      (body, stream rest, sym e.0, e.1, respond-Says (rt.loads body) h)
  body-Says size s closed e h = cc
  body-Says size s unfinished e h = cc

  Says-body :
      (size : ℕ) (s payload rest : List ℕ) (x : Received)
      → Exact size s x
      → s ≡ payload ++ rest
      → length payload ≡ size
      → Says payload
      → receive_body rt x ≡ value result
  Says-body size s payload rest (received body left) e join measured says =
      let parts = append_parts body payload (stream left) rest (e.1 ∙ sym measured) (e.0 ∙ join) in
      rw parts.0 (Says-respond payload says)
  Says-body size s payload rest closed e join measured says =
      absurd (omega (arith, e, ap length join, length-append payload rest, measured))
  Says-body size s payload rest unfinished e join measured says = absurd e

  header-Delivers :
      (s : List ℕ) (x : Received) → Exact 4 s x → receive_header rt x ≡ value result → Delivers s
  header-Delivers s (received header rest) e h = elim (Bool-cases (in_bounds (unpack header))) [
    | inl good ↦
        let found =
          body-Says (unpack header) (stream rest) (recv_exact rest (unpack header))
            (recv_exact-Exact rest (unpack header)) (ground arith) in
        let (payload, tail, join, measured, says) = found in
        (
          payload,
          (header, tail, sym e.0 ∙ ap (λ t. header ++ t) join, e.1, sym measured),
          subst (λ n. in_bounds n ≡ true) (sym measured) good,
          says,
        )
    | inr bad ↦ absurd (ground arith)
  ]
  header-Delivers s closed e h = cc
  header-Delivers s unfinished e h = cc

  Delivers-header :
      (s : List ℕ) (x : Received) → Exact 4 s x → Delivers s → receive_header rt x ≡ value result
  Delivers-header s (received header rest) e
        (payload, (front, tail, join, four, announced), bounded, says) =
      let parts =
        append_parts header front (stream rest) (payload ++ tail) (e.1 ∙ sym four) (e.0 ∙ join) in
      let size : unpack header ≡ length payload = ap unpack parts.0 ∙ announced in
      let fits = subst (λ n. in_bounds n ≡ true) (sym size) bounded in
      rw fits (
        Says-body (unpack header) (stream rest) payload tail (recv_exact rest (unpack header))
          (recv_exact-Exact rest (unpack header)) parts.1 (sym size) says)
  Delivers-header s closed e (payload, (front, tail, join, four, announced), bounded, says) =
      absurd (omega (arith, e, ap length join, length-append front (payload ++ tail), four))
  Delivers-header s unfinished e d = absurd e

  -- What the peer's connection delivers.
  abbrev pub PeerDelivers : Option Socket → Type 0
  PeerDelivers none = ⊥
  PeerDelivers (some sock) = Delivers (stream sock)

  exchange_iff : (peer : Option Socket) → (exchange rt peer ≡ value result) ↔ PeerDelivers peer
  unfolding exchange
  exchange_iff none = (λ h. cc, λ d. absurd d)
  exchange_iff (some sock) = (
    header-Delivers (stream sock) (recv_exact sock 4) (recv_exact-Exact sock 4),
    Delivers-header (stream sock) (recv_exact sock 4) (recv_exact-Exact sock 4),
  )

  -- A request returns a result exactly if its own payload has 1 to MAX_FRAME bytes, the connection
  -- is made, and what comes back, however it is cut into segments, begins with a frame of 1 to
  -- MAX_FRAME bytes that parses as a response which is ok and has that result.
  pub roundtrip_iff :
      (client : BrokerClient) (k : ℕ) (action : Action Value)
      → (roundtrip rt client k action ≡ value result) ↔ (
          let payload = request_payload rt client k action in
          (in_bounds (length payload) ≡ true)
          × PeerDelivers (rt.peer client.socket_path k (frame payload)))
  unfolding roundtrip
  roundtrip_iff client k action =
      let payload = request_payload rt client k action in
      let exact = exchange_iff (rt.peer client.socket_path k (frame payload)) in
      (
        λ h. elim (Bool-cases (in_bounds (length payload))) [
          | inl fits ↦ (fits, exact.0 (ground arith))
          | inr far ↦ absurd (ground arith)
        ],
        λ d. rw d.0 (exact.1 d.1),
      )
