-- ===== src/Net/Stream.antt =====
-- What the receive and send loops do with the stream, however the kernel cuts it.
use private_distributed_clou.Prelude.{
  ℕ, zero, suc, ◌+◌, ◌-◌, ◌≤◌, ◌<◌, ◌≡◌, ◌⊎◌, inl, inr, refl, ap, sym, ◌∙◌, false, Option, none,
  some, List, [], ◌∷◌, ◌++◌, arith, length, length-append, take, drop, take-append-drop,
  length-drop,
}
use mathlib.Core.List.{append_assoc, append-nil}
use private_distributed_clou.Run.{Run, done, fault, ◌>>=◌}
use private_distributed_clou.Net.{
  Kernel, received, written, receive_loop, send_out_loop, read_all, recv_all, write_all,
}

-- The loop stopped at an assertion, or it returned `count` bytes from the front of the stream.
abbrev pub Reads : (k : Kernel) → ℕ → ℕ → k.World → Run (List ℕ × k.World) → Type 0
Reads k fd count w r =
    (r ≡ fault)
    ⊎ ((bs : List ℕ) × (w' : k.World) × (r ≡ done (bs, w'))
        × (length bs ≡ count)
        × (k.incoming w fd ≡ bs ++ k.incoming w' fd))

-- Bytes that came before, and a loop for the rest.
Reads-append :
    (k : Kernel) (fd count rest : ℕ) (w w1 : k.World) (first : List ℕ) (r : Run (List ℕ × k.World))
    → k.incoming w fd ≡ first ++ k.incoming w1 fd
    → count ≡ length first + rest
    → Reads k fd rest w1 r
    → Reads k fd count w (r >>= λ later. done (first ++ later.0, later.1))
Reads-append k fd count rest w w1 first r front e (inl bad) =
    inl (ap (λ x. x >>= λ later. done (first ++ later.0, later.1)) bad)
Reads-append k fd count rest w w1 first r front e (inr (bs, w', good, len, stream)) = inr (
  first ++ bs,
  w',
  ap (λ x. x >>= λ later. done (first ++ later.0, later.1)) good,
  omega (arith, length-append first bs),
  front ∙ ap (◌++◌ first) stream ∙ sym (append_assoc first bs (k.incoming w' fd)),
)

module _ (k : Kernel) (fd fuel : ℕ) where
  -- One round, given the loop after it.
  read_round :
      (count : ℕ) (w : k.World) (r : Option (List ℕ) × k.World)
      → k.read fd (suc count) w ≡ r
      → ((n : ℕ) (w1 : k.World) → n ≤ count → Reads k fd n w1 (receive_loop (k.read fd) fuel n w1))
      → Reads k fd (suc count) w (
          received r >>= λ first.
          receive_loop (k.read fd) fuel (suc count - length first.0) first.1 >>= λ later.
          done (first.0 ++ later.0, later.1))
  read_round count w (none, w1) e loop = inl refl
  read_round count w (some [], w1) e loop = inl refl
  read_round count w (some (b ∷ bs), w1) e loop =
      let front = k.read_front fd (suc count) w w1 (b ∷ bs) e in
      Reads-append k fd (suc count) (suc count - suc (length bs)) w w1 (b ∷ bs) _ front.0
        (omega (arith, front.1)) (loop (suc count - suc (length bs)) w1 (omega arith))

read_loop-Reads :
    (k : Kernel) (fd fuel count : ℕ) (w : k.World)
    → count < fuel
    → Reads k fd count w (receive_loop (k.read fd) fuel count w)
unfolding receive_loop
read_loop-Reads k fd zero count w h = absurd (omega arith)
read_loop-Reads k fd (suc fuel) zero w h = inr ([], w, refl, refl, refl)
read_loop-Reads k fd (suc fuel) (suc count) w h =
    read_round k fd fuel count w (k.read fd (suc count) w) refl
      λ n w1 le. read_loop-Reads k fd fuel n w1 (omega arith)

-- `read_all` ends, however the stream is cut into pieces: either its assertion fails, on an error or an
-- end of file, or it returns the next `count` bytes of the stream, and the stream goes on behind them.
pub read_all-Reads :
    (k : Kernel) (fd count : ℕ) (w : k.World) → Reads k fd count w (read_all k fd count w)
unfolding read_all
read_all-Reads k fd count w = read_loop-Reads k fd (suc count) count w (omega arith)

-- The same of `recv_all` with the flags 0.
pub recv_all-Reads :
    (k : Kernel) (fd count : ℕ) (w : k.World) → Reads k fd count w (recv_all k false fd count w)
unfolding recv_all
recv_all-Reads k fd count w = read_loop-Reads k fd (suc count) count w (omega arith)

-- The loop stopped at an assertion, or all of `bs` was appended to what was written.
abbrev pub Writes : (k : Kernel) → ℕ → List ℕ → k.World → Run k.World → Type 0
Writes k fd bs w r =
    (r ≡ fault) ⊎ ((w' : k.World) × (r ≡ done w') × (k.outgoing w' fd ≡ k.outgoing w fd ++ bs))

module _ (k : Kernel) (fd fuel : ℕ) where
  write_round :
      (bs : List ℕ) (w : k.World) (r : Option ℕ × k.World)
      → k.write fd bs w ≡ r
      → ((n : ℕ) (w1 : k.World)
          → 0 < n
          → n ≤ length bs
          → Writes k fd (drop n bs) w1 (send_out_loop (k.write fd) fuel (drop n bs) w1))
      → Writes k fd bs w
          (written r >>= λ first. send_out_loop (k.write fd) fuel (drop first.0 bs) first.1)
  write_round bs w (none, w1) e loop = inl refl
  write_round bs w (some zero, w1) e loop = inl refl
  write_round bs w (some (suc n), w1) e loop =
      let back = k.write_back fd (suc n) bs w w1 e in
      elim (loop (suc n) w1 (omega arith) back.1) [
        | inl bad ↦ inl bad
        | inr (w', good, out) ↦ inr (
          w',
          good,
          out
              ∙ ap (λ x. x ++ drop (suc n) bs) back.0
              ∙ append_assoc (k.outgoing w fd) (take (suc n) bs) (drop (suc n) bs)
              ∙ ap (◌++◌ (k.outgoing w fd)) (take-append-drop (suc n) bs),
        )
      ]

send_out_loop-Writes :
    (k : Kernel) (fd fuel : ℕ) (bs : List ℕ) (w : k.World)
    → length bs < fuel
    → Writes k fd bs w (send_out_loop (k.write fd) fuel bs w)
unfolding send_out_loop
send_out_loop-Writes k fd zero bs w h = absurd (omega arith)
send_out_loop-Writes k fd (suc fuel) [] w h = inr (w, refl, sym (append-nil (k.outgoing w fd)))
send_out_loop-Writes k fd (suc fuel) (b ∷ bs) w h =
    write_round k fd fuel (b ∷ bs) w (k.write fd (b ∷ bs) w) refl λ n w1 pos le.
      send_out_loop-Writes k fd fuel (drop n (b ∷ bs)) w1 (omega (arith, length-drop n (b ∷ bs)))

-- `write_all` ends, however many bytes each `write` takes: either its assertion fails, or all bytes of
-- the buffer were written, in order and once.
pub write_all-Writes :
    (k : Kernel) (fd : ℕ) (bs : List ℕ) (w : k.World) → Writes k fd bs w (write_all k fd bs w)
unfolding write_all
write_all-Writes k fd bs w = send_out_loop-Writes k fd (suc (length bs)) bs w (omega arith)
