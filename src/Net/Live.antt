-- ===== src/Net/Live.antt =====
-- The loops of nbd_comm.c on a socket whose calls do not fail.
use private_distributed_clou.Prelude.{
  ℕ, zero, suc, ◌-◌, ◌≤◌, ◌<◌, ◌≡◌, ◌≢◌, inl, inr, refl, ap, some, List, [], ◌∷◌, ◌++◌, arith,
  length, length-append, drop,
}
use private_distributed_clou.Run.{Run, done, fault, running, ◌>>=◌}
use private_distributed_clou.Net.{Kernel, receive_loop, send_out_loop, read_all, write_all}
use private_distributed_clou.Net.Stream.{read_all-Reads, write_all-Writes}

-- On this descriptor a read of bytes that are or will be there returns some of them, and a write takes some
-- bytes.
pub record IsLive (k : Kernel) (fd : ℕ) : Type 0 where
  pub reads :
      (count : ℕ) (w : k.World)
      → 0 < count
      → count ≤ length (k.incoming w fd)
      → (b : ℕ) × (bs : List ℕ) × (w' : k.World) × (k.read fd count w ≡ (some (b ∷ bs), w'))
  pub writes :
      (bs : List ℕ) (w : k.World)
      → 0 < length bs
      → (n : ℕ) × (w' : k.World) × (k.write fd bs w ≡ (some (suc n), w'))

>>=-done-fault :
    {A B : Type 0} (m : Run A) (f : A → B) → m ≢ fault → (m >>= λ a. done (f a)) ≢ fault
>>=-done-fault (done a) f h e = cc
>>=-done-fault fault f h e = h refl
>>=-done-fault running f h e = cc

receive_loop-live :
    (k : Kernel) (fd fuel count : ℕ) (w : k.World)
    → IsLive k fd
    → count ≤ length (k.incoming w fd)
    → receive_loop (k.read fd) fuel count w ≢ fault
unfolding receive_loop
receive_loop-live k fd zero count w live le e = cc
receive_loop-live k fd (suc fuel) zero w live le e = cc
receive_loop-live k fd (suc fuel) (suc count) w live le e =
    let (b, bs, w1, read) = live.reads (suc count) w (omega arith) le in
    let front = k.read_front fd (suc count) w w1 (b ∷ bs) read in
    let rest =
      receive_loop-live k fd fuel (suc count - suc (length bs)) w1 live (
        omega (arith, ap length front.0, length-append (b ∷ bs) (k.incoming w1 fd), front.1, le)) in
    >>=-done-fault {B = List ℕ × k.World}
      (receive_loop (k.read fd) fuel (suc count - suc (length bs)) w1)
      (λ later. ((b ∷ bs) ++ later.0, later.1)) rest (ground (arith, read, e))

send_out_loop-live :
    (k : Kernel) (fd fuel : ℕ) (bs : List ℕ) (w : k.World)
    → IsLive k fd
    → send_out_loop (k.write fd) fuel bs w ≢ fault
unfolding send_out_loop
send_out_loop-live k fd zero bs w live e = cc
send_out_loop-live k fd (suc fuel) [] w live e = cc
send_out_loop-live k fd (suc fuel) (b ∷ bs) w live e =
    let (n, w1, wrote) = live.writes (b ∷ bs) w (omega arith) in
    send_out_loop-live k fd fuel (drop (suc n) (b ∷ bs)) w1 live (ground (arith, wrote, e))

-- On a socket whose calls do not fail, `read_all` returns the next `count` bytes, where the stream has as
-- many, and leaves the rest.
pub read_all_returns :
    (k : Kernel) (fd count : ℕ) (w : k.World)
    → IsLive k fd
    → count ≤ length (k.incoming w fd)
    → (bs : List ℕ) × (w' : k.World) × (read_all k fd count w ≡ done (bs, w'))
      × (length bs ≡ count)
      × (k.incoming w fd ≡ bs ++ k.incoming w' fd)
unfolding read_all
read_all_returns k fd count w live le = elim (read_all-Reads k fd count w) [
  | inl bad ↦ absurd (receive_loop-live k fd (suc count) count w live le bad)
  | inr good ↦ good
]

-- On a socket whose calls do not fail, `write_all` returns, and all bytes of the buffer were written, in
-- order and once.
pub write_all_returns :
    (k : Kernel) (fd : ℕ) (bs : List ℕ) (w : k.World)
    → IsLive k fd
    → (w' : k.World) × (write_all k fd bs w ≡ done w') × (k.outgoing w' fd ≡ k.outgoing w fd ++ bs)
unfolding write_all
write_all_returns k fd bs w live = elim (write_all-Writes k fd bs w) [
  | inl bad ↦ absurd (send_out_loop-live k fd (suc (length bs)) bs w live bad)
  | inr good ↦ good
]
