-- ===== src/Host/Defects.antt =====
-- Inputs on which RequestHost does not do what it is for.
use private_distributed_clou.Prelude.{ℕ, ◌/◌, ◌<◌, ◌≡◌, ◌≢◌, true, some, [], ◌∷◌, arith}
use private_distributed_clou.Run.{done, fault}
use private_distributed_clou.IntSet
use private_distributed_clou.Net.{Kernel, recv_all, receive_loop}
use private_distributed_clou.Nbd.{NbdAbi, NbdMessage}
use private_distributed_clou.Command.{SendFails}
use private_distributed_clou.Host.{
  RequestHost, fragment_count, create_host, distribute, job_info, with_header, send_msg_wrapper,
}
use private_distributed_clou.Host.Reply.{load32, peek, is_answered}
use private_distributed_clou.Dispatcher.{command_factory, create-command_factory}

-- `Peek` calls `recv` with `MSG_PEEK` until it has four bytes. If the first call gives two bytes, the next
-- one gives the same two again, since a peek leaves them in the stream: the number is read from the bytes
-- `a b a b`, whatever bytes follow `a b`.
pub peek_repeats :
    (k : Kernel) (fd : ℕ) (w w1 w2 : k.World) (a b c d : ℕ)
    → k.peek fd 4 w ≡ (some (a ∷ b ∷ []), w1)
    → k.peek fd 2 w1 ≡ (some (c ∷ d ∷ []), w2)
    → peek k fd w ≡ done (load32 (a ∷ b ∷ a ∷ b ∷ []), w2)
unfolding peek recv_all receive_loop
peek_repeats k fd w w1 w2 a b c d first second =
    let (same, _, (rest1, front1)) = k.peek_front fd 4 w w1 (a ∷ b ∷ []) first in
    let (_, _, (rest2, front2)) = k.peek_front fd 2 w1 w2 (c ∷ d ∷ []) second in
    let ca : c ≡ a = cc in let db : d ≡ b = cc in rw first (rw second (rw (ca, db)))

-- A request of less than one fragment starts no job, so that no device is asked and none answers, although
-- its host waits for no fragment: `NbdRequestDone`, which `ReadReaply` alone calls, is never reached.
pub short_request :
    (next_uid : ℕ) (m : NbdMessage) (socket : ℕ → ℕ)
    → m.nbd_req.data_len < 1024
    → (distribute (create_host next_uid m).0 socket ≡ [])
      × (is_answered (create_host next_uid m).0 ≡ true)
unfolding create_host distribute IntSet.is_empty
short_request next_uid m socket h =
    let none_there : m.nbd_req.data_len / 1024 ≡ 0 = omega arith in (ground arith, rw none_there)

-- A job of a request that is neither a read nor a write calls a null creator.
pub unknown_type_faults :
    (abi : NbdAbi) (fails : SendFails) (host : RequestHost) (socket : ℕ → ℕ) (j first : ℕ)
    → j < fragment_count host.nbq_req
    → host.nbq_req.req_type ≢ abi.cmd_read
    → host.nbq_req.req_type ≢ abi.cmd_write
    → send_msg_wrapper (command_factory abi) fails host (job_info host socket j first) ≡ fault
unfolding send_msg_wrapper job_info
unknown_type_faults abi fails host socket j first lt er ew = ground (
  arith,
  create-command_factory abi host.nbq_req.req_type (with_header (job_info host socket j first)),
)
