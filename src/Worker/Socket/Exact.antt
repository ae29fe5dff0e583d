-- ===== src/Worker/Socket/Exact.antt =====
-- How the network cuts the stream into segments makes no difference.
use mathlib.Core.List.{append_assoc}
use mathlib.Core.Path.{subst}
use autonomic.Common.{
  ℕ, zero, suc, ◌+◌, ◌-◌, ◌≤◌, ◌<◌, List, [], ◌∷◌, ◌++◌, ◌≡◌, refl, sym, ap, ◌∙◌, inl, inr, arith,
  leb, leb→le, leb-false→lt, length, length-append, length-take, take, drop, length-drop,
  take-append-drop, is_empty, Bool-cases, true, false,
}
use autonomic.Worker.Socket.{
  Socket, recv, Received, received, closed, unfinished, recv_loop, recv_exact, pack, unpack,
}

-- The bytes up to the end of the stream.
abbrev pub stream : Socket → List ℕ
stream [] = []
stream ([] ∷ segs) = []
stream ((b ∷ bs) ∷ segs) = (b ∷ bs) ++ stream segs

-- What reading `size` bytes from the bytes `s` has to give.
abbrev pub Exact : ℕ → List ℕ → Received → Type 0
Exact size s (received out rest) = (out ++ stream rest ≡ s) × (length out ≡ size)
Exact size s closed = length s < size
Exact size s unfinished = ⊥

-- `struct.unpack` reads back what `struct.pack` writes, for every number below 2 ^ 32.
pub unpack-pack : (n : ℕ) → n < 4294967296 → unpack (pack n) ≡ n
unfolding unpack pack
unpack-pack n h = omega arith

nonempty_stream :
    (seg : List ℕ) (segs : Socket) → 0 < length seg → stream (seg ∷ segs) ≡ seg ++ stream segs
nonempty_stream [] segs h = elim h [ ]
nonempty_stream (b ∷ bs) segs h = refl

pub positive→nonempty : (xs : List ℕ) → 0 < length xs → is_empty xs ≡ false
positive→nonempty [] h = elim h [ ]
positive→nonempty (x ∷ xs) h = refl

pub nonempty→positive : (xs : List ℕ) → is_empty xs ≡ false → 0 < length xs
nonempty→positive [] h = cc
nonempty→positive (x ∷ xs) h = omega arith

-- What `recv` has to do with the stream: it returns up to `n` bytes of it, and none only at its
-- end.
abbrev pub Reads : ℕ → List ℕ → List ℕ × Socket → Type 0
Reads n s (got, rest) = (s ≡ got ++ stream rest) × (length got ≤ n) × (is_empty got ≡ true → s ≡ [])

recv-Reads : (n : ℕ) → 0 < n → (sock : Socket) → Reads n (stream sock) (recv n sock)
unfolding recv
recv-Reads n positive [] = (refl, omega arith, λ h. refl)
recv-Reads n positive ([] ∷ segs) = (refl, omega arith, λ h. refl)
recv-Reads n positive ((b ∷ bs) ∷ segs) = elim (Bool-cases (leb (length (b ∷ bs)) n)) [
  | inl small ↦ rw small (refl, leb→le _ _ small, λ h. cc)
  | inr large ↦
      let below : n < suc (length bs) = leb-false→lt _ _ large in
      let some : 0 < length (take n (b ∷ bs)) = omega (arith, length-take n (b ∷ bs)) in
      let left : 0 < length (drop n (b ∷ bs)) = omega (arith, length-drop n (b ∷ bs)) in
      rw large (
        (ap (λ ys. ys ++ stream segs) (sym (take-append-drop n (b ∷ bs)))
            ∙ append_assoc (take n (b ∷ bs)) (drop n (b ∷ bs)) (stream segs)
            ∙ ap (λ ys. take n (b ∷ bs) ++ ys) (sym (nonempty_stream _ segs left))),
        omega (arith, length-take n (b ∷ bs)),
        λ h. cc (positive→nonempty _ some),
      )
]

recv_loop-Exact :
    (fuel size : ℕ) (out : List ℕ) (sock : Socket)
    → length out ≤ size
    → size < fuel + length out
    → Exact size (out ++ stream sock) (recv_loop fuel size out sock)
unfolding recv_loop
recv_loop-Exact zero size out sock h k = absurd (omega arith)
recv_loop-Exact (suc fuel) size out sock h k = elim (Bool-cases (leb size (length out))) [
  | inl done ↦ rw done (refl, ground (arith, done))
  | inr more ↦
      let room : 0 < size - length out = ground (arith, more) in
      let reads = recv-Reads (size - length out) room sock in
      elim (Bool-cases (is_empty (recv (size - length out) sock).0)) [
        | inl nothing ↦
            rw (more, nothing)
              (omega (
                arith,
                length-append out (stream sock),
                ap length (reads.2 nothing),
                leb-false→lt _ _ more,
              ))
        | inr something ↦
            let got = (recv (size - length out) sock).0 in
            let rest = (recv (size - length out) sock).1 in
            let grown = length-append out got in
            let some = nonempty→positive got something in
            rw (more, something)
              (subst (λ s. Exact size s (recv_loop fuel size (out ++ got) rest))
                (append_assoc out got (stream rest) ∙ ap (λ s. out ++ s) (sym reads.0))
                (recv_loop-Exact fuel size (out ++ got) rest (omega (arith, reads.1, grown))
                  (omega (arith, grown, some))))
      ]
]

-- Reading `size` bytes gives the first `size` bytes of the stream and leaves the others, however
-- the stream is cut into segments; it fails exactly if the stream ends before, and always ends.
pub recv_exact-Exact : (sock : Socket) (size : ℕ) → Exact size (stream sock) (recv_exact sock size)
unfolding recv_exact
recv_exact-Exact sock size = recv_loop-Exact (suc size) size [] sock (omega arith) (omega arith)
