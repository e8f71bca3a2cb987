-- ===== src/Net.antt =====
-- The sockets of the program, and the loops `recv_all` of RequestHost.cpp and `read_all` and `write_all`
-- of nbd_comm.c. The kernel is a parameter with the documented behaviour of a stream socket.
pub mod Duplex
pub mod Live
pub mod Stream
use private_distributed_clou.Prelude.{
  ℕ, zero, suc, ◌+◌, ◌-◌, ◌≤◌, ◌≡◌, Bool, true, false, Option, none, some, List, [], ◌∷◌, ◌++◌,
  ◌==◌, length, take, drop,
}
use private_distributed_clou.Run.{Run, done, fault, running, ◌>>=◌}

-- The kernel. A call returns the bytes that it moved, or `none` for -1.
pub record Kernel : Type 1 where
  pub World : Type 0
  -- The bytes that the peer has sent or will send on a descriptor, and that were not read yet.
  pub incoming : World → ℕ → List ℕ
  -- All bytes that were written to a descriptor.
  pub outgoing : World → ℕ → List ℕ
  -- `read(fd, buf, count)`.
  pub read : ℕ → ℕ → World → Option (List ℕ) × World
  -- `recv(fd, buf, count, MSG_PEEK)`. With the flags 0 `recv` is `read`.
  pub peek : ℕ → ℕ → World → Option (List ℕ) × World
  -- `write(fd, buf, count)`: the number of bytes taken.
  pub write : ℕ → List ℕ → World → Option ℕ × World
  -- A read takes at most `count` bytes from the front of the stream, a peek leaves them there.
  pub read_front :
      (fd count : ℕ) (w w' : World) (bs : List ℕ)
      → read fd count w ≡ (some bs, w')
      → (incoming w fd ≡ bs ++ incoming w' fd) × (length bs ≤ count)
  pub peek_front :
      (fd count : ℕ) (w w' : World) (bs : List ℕ)
      → peek fd count w ≡ (some bs, w')
      → (incoming w' fd ≡ incoming w fd)
        × (length bs ≤ count)
        × ((rest : List ℕ) × (incoming w fd ≡ bs ++ rest))
  -- A write appends the bytes that it takes.
  pub write_back :
      (fd n : ℕ) (bs : List ℕ) (w w' : World)
      → write fd bs w ≡ (some n, w')
      → (outgoing w' fd ≡ outgoing w fd ++ take n bs) × (n ≤ length bs)

-- What one call hands to the loop: `assert(bytes_read > 0)` fails on -1 and on an end of file.
abbrev received {ℓ} : {W : Type ℓ} → Option (List ℕ) × W → Run (List ℕ × W)
received (none, w) = fault
received (some [], w) = fault
received (some (b ∷ bs), w) = done (b ∷ bs, w)

-- The loop of `read_all` and of `recv_all`, over the call that it repeats.
unfoldable pub receive_loop {ℓ} :
    {W : Type ℓ} → (ℕ → W → Option (List ℕ) × W) → ℕ → ℕ → W → Run (List ℕ × W)
receive_loop call zero count w = running
receive_loop call (suc fuel) zero w = done ([], w)
receive_loop call (suc fuel) (suc count) w = received (call (suc count) w) >>= λ first.
    receive_loop call fuel (suc count - length first.0) first.1 >>= λ later.
    done (first.0 ++ later.0, later.1)

-- What one call of `write` hands to its loop.
abbrev written {ℓ} : {W : Type ℓ} → Option ℕ × W → Run (ℕ × W)
written (none, w) = fault
written (some zero, w) = fault
written (some (suc n), w) = done (suc n, w)

-- The loop of `write_all`.
unfoldable pub send_out_loop {ℓ} :
    {W : Type ℓ} → (List ℕ → W → Option ℕ × W) → ℕ → List ℕ → W → Run W
send_out_loop call zero bs w = running
send_out_loop call (suc fuel) [] w = done w
send_out_loop call (suc fuel) (b ∷ bs) w =
    written (call (b ∷ bs) w) >>= λ first. send_out_loop call fuel (drop first.0 (b ∷ bs)) first.1

-- The loops with fuel for a byte in each round.
module _ (k : Kernel) where
  -- `recv_all(fd, buf, count, flags)`, where the flags are 0 or `MSG_PEEK`.
  unfoldable pub recv_all : Bool → ℕ → ℕ → k.World → Run (List ℕ × k.World)
  unfolding receive_loop
  recv_all false fd count w = receive_loop (k.read fd) (suc count) count w
  recv_all true fd count w = receive_loop (k.peek fd) (suc count) count w

  -- `read_all(fd, buf, count)`.
  unfoldable pub read_all : ℕ → ℕ → k.World → Run (List ℕ × k.World)
  unfolding receive_loop
  read_all fd count w = receive_loop (k.read fd) (suc count) count w

  -- `write_all(fd, buf, count)`, the bytes of `buf` being `bs`.
  unfoldable pub write_all : ℕ → List ℕ → k.World → Run k.World
  unfolding send_out_loop
  write_all fd bs w = send_out_loop (k.write fd) (suc (length bs)) bs w
