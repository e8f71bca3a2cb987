-- ===== src/Examples/Hosts.antt =====
-- One request of the block device: its jobs and its replies.
use private_distributed_clou.Prelude.{
  ℕ, zero, suc, ◌+◌, ◌≡◌, inr, refl, true, false, List, [], ◌∷◌, map, arith,
}
use private_distributed_clou.Run.{done}
use private_distributed_clou.Nbd.{NbdMessage}
use private_distributed_clou.Command.{SendFails}
use private_distributed_clou.Host.{RequestHost, create_host, distribute, send_msg_wrapper, job_info}
use private_distributed_clou.Host.Placement.{fragment_message, stride, send_msg_wrapper_lem}
use private_distributed_clou.Host.Reply.{is_answered, load32, peek}
use private_distributed_clou.Host.Defects.{peek_repeats, short_request}
use private_distributed_clou.Dispatcher.{command_factory}
use private_distributed_clou.Kernels.{Wire, chunk_kernel, linux_abi}

abbrev replicate : ℕ → ℕ → List ℕ
replicate zero b = []
replicate (suc n) b = b ∷ replicate n b

-- A request of the given type and length, from byte 3072 of the device on.
abbrev request : ℕ → ℕ → List ℕ → NbdMessage
request type len buffer = record {
  nbd_req = record { req_type = type; data_len = len; offset = 3072; data_buf = buffer };
  nbd_sock = 3;
  reply = record { magic = 0; error = 0; handle = 7 ∷ [] };
}

-- A write of ten fragments.
abbrev ten_fragments : RequestHost
ten_fragments = record {
  message = request 1 10240 (replicate 10240 5);
  req_uid = 4;
  fragmentation_set = [];
}

abbrev sockets : ℕ → ℕ
sockets i = i + 100

abbrev all_sent : SendFails
all_sent = λ _. false

send_msg_wrapper_lem_example :
    send_msg_wrapper
      (command_factory linux_abi)
      all_sent
      ten_fragments
      (job_info ten_fragments sockets 1 4)
    ≡ done (map (fragment_message linux_abi ten_fragments sockets) (1 ∷ 9 ∷ []), 0)
unfolding stride
send_msg_wrapper_lem_example =
    send_msg_wrapper_lem linux_abi all_sent ten_fragments sockets 1 (omega arith)
      (record { known = inr refl; small = omega arith })

short_request_example :
    (distribute (create_host 4 (request 1 512 [])).0 sockets ≡ [])
    × (is_answered (create_host 4 (request 1 512 [])).0 ≡ true)
short_request_example = short_request 4 (request 1 512 []) sockets (omega arith)

-- The number 7 is peeked at two bytes a time, and what follows its first two bytes is 1 and not 0.
abbrev split_wire : Wire
split_wire = record { inbox = 7 ∷ 0 ∷ 1 ∷ 0 ∷ []; outbox = [] }

peek_repeats_example : peek (chunk_kernel 2) 5 split_wire ≡ done (458759, split_wire)
unfolding load32
peek_repeats_example =
    peek_repeats (chunk_kernel 2) 5 split_wire split_wire split_wire 7 0 7 0 refl refl
