-- ===== src/Net/Duplex.antt =====
-- The two directions of sockets: what the receive and send loops leave of the other one.
use private_distributed_clou.Prelude.{
  ℕ, zero, suc, ◌-◌, ◌≡◌, refl, ap, sym, ◌∙◌, Option, none, some, List, [], ◌∷◌, length, drop,
}
use private_distributed_clou.Run.{done, >>=-eq-done, done_parts}
use private_distributed_clou.Net.{
  Kernel, received, written, receive_loop, send_out_loop, read_all, write_all,
}

-- A read on one descriptor leaves what was written to the other, which may be the same one, and a write leaves what
-- is still to be read there.
pub record IsDuplex (k : Kernel) (fd other : ℕ) : Type 0 where
  pub read_keeps :
      (count : ℕ) (w w' : k.World) (r : Option (List ℕ))
      → k.read fd count w ≡ (r, w')
      → k.outgoing w' other ≡ k.outgoing w other
  pub write_keeps :
      (bs : List ℕ) (w w' : k.World) (r : Option ℕ)
      → k.write fd bs w ≡ (r, w')
      → k.incoming w' other ≡ k.incoming w other

-- The world behind a call that moved some bytes is the one of the call.
received_world :
    {W : Type 0} (r : Option (List ℕ) × W) {first : List ℕ × W}
    → received r ≡ done first
    → first.1 ≡ r.1
received_world (none, w) e = cc
received_world (some [], w) e = cc
received_world (some (b ∷ bs), w) e = cc

written_world :
    {W : Type 0} (r : Option ℕ × W) {first : ℕ × W} → written r ≡ done first → first.1 ≡ r.1
written_world (none, w) e = cc
written_world (some zero, w) e = cc
written_world (some (suc n), w) e = cc

module _ (k : Kernel) (fd other : ℕ) (both : IsDuplex k fd other) where
  receive_loop_keeps :
      (fuel count : ℕ) (w : k.World) {bs : List ℕ} {w' : k.World}
      → receive_loop (k.read fd) fuel count w ≡ done (bs, w')
      → k.outgoing w' other ≡ k.outgoing w other
  unfolding receive_loop
  receive_loop_keeps zero count w e = cc
  receive_loop_keeps (suc fuel) zero w e = ap (λ x. k.outgoing x other) (sym ((done_parts e).1))
  receive_loop_keeps (suc fuel) (suc count) w {bs = bs} {w' = w'} e =
      let (first, got, e1) = >>=-eq-done (received (k.read fd (suc count) w)) _ e in
      let (later, gone, e2) =
        >>=-eq-done (receive_loop (k.read fd) fuel (suc count - length first.0) first.1) _ e1 in
      let last : later.1 ≡ w' = (done_parts e2).1 in
      let rest : k.outgoing (later.1) other ≡ k.outgoing (first.1) other =
        receive_loop_keeps fuel (suc count - length first.0) first.1 gone in
      let one = received_world (k.read fd (suc count) w) got in
      let kept = both.read_keeps (suc count) w (k.read fd (suc count) w).1 _ refl in
      ap (λ x. k.outgoing x other) (sym last) ∙ rest ∙ ap (λ x. k.outgoing x other) one ∙ kept

  send_out_loop_keeps :
      (fuel : ℕ) (bs : List ℕ) (w : k.World) {w' : k.World}
      → send_out_loop (k.write fd) fuel bs w ≡ done w'
      → k.incoming w' other ≡ k.incoming w other
  unfolding send_out_loop
  send_out_loop_keeps zero bs w e = cc
  send_out_loop_keeps (suc fuel) [] w {w' = w'} e =
      let same : w ≡ w' = cc in ap (λ x. k.incoming x other) (sym same)
  send_out_loop_keeps (suc fuel) (b ∷ bs) w e =
      let (first, put, e1) = >>=-eq-done (written (k.write fd (b ∷ bs) w)) _ e in
      send_out_loop_keeps fuel (drop first.0 (b ∷ bs)) first.1 e1
      ∙ ap (λ x. k.incoming x other) (written_world (k.write fd (b ∷ bs) w) put)
      ∙ both.write_keeps (b ∷ bs) w (k.write fd (b ∷ bs) w).1 _ refl

  pub read_all_keeps :
      (count : ℕ) (w : k.World) {bs : List ℕ} {w' : k.World}
      → read_all k fd count w ≡ done (bs, w')
      → k.outgoing w' other ≡ k.outgoing w other
  unfolding read_all
  read_all_keeps count w e = receive_loop_keeps (suc count) count w e

  pub write_all_keeps :
      (bs : List ℕ) (w : k.World) {w' : k.World}
      → write_all k fd bs w ≡ done w'
      → k.incoming w' other ≡ k.incoming w other
  unfolding write_all
  write_all_keeps bs w e = send_out_loop_keeps (suc (length bs)) bs w e
