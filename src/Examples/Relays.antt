-- ===== src/Examples/Relays.antt =====
-- A read that a relay hands to its device, and the reply.
use private_distributed_clou.Prelude.{
  ℕ, ◌+◌, ◌≤◌, ◌≡◌, ◌⊎◌, refl, ap, true, false, none, some, List, [], ◌∷◌, ◌++◌, length, slice,
  arith, ℕ_discrete,
}
use private_distributed_clou.Run.{Run, done, ◌>>=◌}
use private_distributed_clou.Assoc
use private_distributed_clou.Nbd.{NbdMessage, message_of, nbd_request_read}
use private_distributed_clou.Nbd.Returns.{nbd_request_read_returns}
use private_distributed_clou.ThreadPool.{Task}
use private_distributed_clou.ThreadPool.Tally.{total}
use private_distributed_clou.ThreadPool.Workers.{Pool, new_pool, submit, call_dequeue, finish_task}
use private_distributed_clou.ThreadPool.Drains.{GoesOn, called, Runs, at_end, step, work_left}
use private_distributed_clou.Nbd.Exchange.{SentRequest, message_sent, answer_to}
use private_distributed_clou.Host.Reply.{load32}
use private_distributed_clou.Relay.{
  relay_message, convert_to_atlas, relay_nbd_handle, relay_iot_handle,
}
use private_distributed_clou.Relay.Pool.{
  SendCall, Memory, send_function, RelayPool, new_relay, request_in, pooled_nbd_handle, Reach,
  reads, start, later,
}
use private_distributed_clou.Relay.Waiting.{waiting, reads_at}
use private_distributed_clou.Relay.Pooled.{no_apple, relay_sends}
use private_distributed_clou.Relay.Answers.{relay_read_returns}
use private_distributed_clou.Kernels.{
  Wire, chunk_kernel, chunk_kernel-IsLive, chunk_kernel-IsDuplex, linux_abi,
}

-- Two bytes are read at 5, for the handle of 9 and zeros.
abbrev read_header : List ℕ
read_header =
    0x25 ∷ 0x60 ∷ 0x95 ∷ 0x13 ∷ 0 ∷ 0 ∷ 0 ∷ 0 ∷ 9 ∷ 0 ∷ 0 ∷ 0 ∷ 0 ∷ 0 ∷ 0 ∷ 0 ∷ 0 ∷ 0 ∷ 0 ∷ 0 ∷ 0
    ∷ 0 ∷ 0 ∷ 5 ∷ 0 ∷ 0 ∷ 0 ∷ 2 ∷ []

abbrev read_sent : SentRequest
read_sent = record { header = read_header; payload = [] }

-- The reply for the address 4096.
abbrev reply_header : List ℕ
reply_header =
    0 ∷ 16 ∷ 0 ∷ 0 ∷ 0 ∷ 0 ∷ 0 ∷ 0 ∷ 0 ∷ 0 ∷ 0 ∷ 0 ∷ 0 ∷ 2 ∷ 0 ∷ 0 ∷ 0 ∷ 0 ∷ 0 ∷ 0 ∷ 2 ∷ 0 ∷ 0 ∷ 0
    ∷ []

abbrev relay_sockets : ℕ → ℕ
relay_sockets i = i + 3

abbrev zeros : ℕ → List ℕ
zeros n = 0 ∷ 0 ∷ []

abbrev asked : Wire
asked = record { inbox = read_header ++ (99 ∷ []); outbox = [] }

abbrev replied : Wire
replied = record { inbox = reply_header ++ (81 ∷ 82 ∷ 98 ∷ []); outbox = 7 ∷ [] }

relay_read_returns_example :
    (w' : Wire) × (v' : Wire) × (relay_nbd_handle linux_abi
        (chunk_kernel 1)
        zeros
        4096
        relay_sockets
        []
        asked
      ≡ done (
        Assoc.insert ℕ_discrete 4096 (message_sent linux_abi zeros 3 read_sent) [],
        relay_message linux_abi 4 4096 (message_sent linux_abi zeros 3 read_sent).nbd_req,
        w',
      ))
    × (w'.inbox ≡ 99 ∷ [])
    × (relay_iot_handle linux_abi
          (chunk_kernel 1)
          relay_sockets
          ((4096, message_sent linux_abi zeros 3 read_sent) ∷ [])
          replied
        ≡ done ([], v'))
    × (v'.inbox ≡ 98 ∷ [])
    × (v'.outbox ≡ 7 ∷ 9 ∷ 0 ∷ 0 ∷ 0 ∷ 0 ∷ 0 ∷ 0 ∷ 0 ∷ 81 ∷ 82 ∷ [])
unfolding load32 slice Assoc.find Assoc.erase ℕ_discrete relay_message convert_to_atlas message_sent
    message_of answer_to
relay_read_returns_example =
    relay_read_returns linux_abi (chunk_kernel 1) relay_sockets zeros (chunk_kernel-IsLive 0 3)
      (chunk_kernel-IsLive 0 4) 4096 read_sent []
      ((4096, message_sent linux_abi zeros 3 read_sent) ∷ []) asked replied (99 ∷ []) reply_header
      (81 ∷ 82 ∷ []) (98 ∷ []) (chunk_kernel-IsDuplex 1 3 3) (chunk_kernel-IsDuplex 1 4 3)
      (chunk_kernel-IsDuplex 1 3 4) (record { size = refl; magic = refl; follows = refl }) refl refl
      refl refl refl refl refl

-- The relay with a pool of one thread, whose `sendmsg` fails. It gets a write of two bytes.
abbrev write_header : List ℕ
write_header =
    0x25 ∷ 0x60 ∷ 0x95 ∷ 0x13 ∷ 0 ∷ 0 ∷ 0 ∷ 1 ∷ 9 ∷ 0 ∷ 0 ∷ 0 ∷ 0 ∷ 0 ∷ 0 ∷ 0 ∷ 0 ∷ 0 ∷ 0 ∷ 0 ∷ 0
    ∷ 0 ∷ 0 ∷ 5 ∷ 0 ∷ 0 ∷ 0 ∷ 2 ∷ []

abbrev down : SendCall
down m = none

abbrev writing : Wire
writing = record { inbox = write_header ++ (21 ∷ 22 ∷ 99 ∷ []); outbox = [] }

abbrev begun : RelayPool (chunk_kernel 1)
begun = new_relay 1 writing

read_write :
    (w' : Wire) × (nbd_request_read linux_abi (chunk_kernel 1) zeros 3 writing
      ≡ done (message_of linux_abi 3 (linux_abi.decode_request write_header) (21 ∷ 22 ∷ []), w'))
    × (w'.inbox ≡ 99 ∷ [])
unfolding slice
read_write =
    nbd_request_read_returns linux_abi (chunk_kernel 1) 3 zeros write_header (21 ∷ 22 ∷ [])
      (99 ∷ []) writing (chunk_kernel-IsLive 0 3) refl refl refl refl refl

abbrev no_memory : Memory
no_memory = record { pending = []; handed = λ j. false; sent = [] }

abbrev write_read : NbdMessage
write_read = message_of linux_abi 3 (linux_abi.decode_request write_header) (21 ∷ 22 ∷ [])

abbrev read_one : RelayPool (chunk_kernel 1)
read_one =
    request_in linux_abi (chunk_kernel 1) zeros down relay_sockets 4096 16
      (write_read, read_write.0) no_memory begun

read_one-Reach : Reach linux_abi (chunk_kernel 1) zeros down relay_sockets 1 writing read_one
unfolding pooled_nbd_handle new_relay new_pool Assoc.find
read_one-Reach = later start (
    reads 4096 16 no_memory read_one refl refl (
      ap
        (λ r. r >>= λ x. done (
          request_in linux_abi (chunk_kernel 1) zeros down relay_sockets 4096 16 x no_memory begun))
        read_write.1))

abbrev waiting_task : Task (Run Memory)
waiting_task = record {
  address = 16;
  function =
      send_function linux_abi down
        (record { sockfd = 4; header = convert_to_atlas 4096 write_read.nbd_req; req = 4096 });
  priority = 0;
}

-- The worker has taken the task, and has run it.
abbrev sent_one : RelayPool (chunk_kernel 1)
sent_one = record read_one { tp = finish_task waiting_task [] (call_dequeue read_one.tp) }

taking : Runs no_apple 1 (call_dequeue read_one.tp) read_one.tp
unfolding request_in new_relay submit new_pool
taking = step (called (omega arith)) at_end

relay_sends_example :
    (1 ≤ work_left no_apple 1 read_one.tp)
    × (mem : Memory) × ((call_dequeue read_one.tp).world ≡ done mem)
    × ((address : ℕ)
        → total (reads_at address) (call_dequeue read_one.tp).queue.items
            + total (reads_at address) (call_dequeue read_one.tp).running
          ≡ waiting mem address)
    × (length mem.sent ≡ length (call_dequeue read_one.tp).finished)
    × (((q' : Pool (Run Memory)) × GoesOn no_apple 1 (call_dequeue read_one.tp) q')
        ⊎ (((address : ℕ) (m : NbdMessage)
              → Assoc.find ℕ_discrete address mem.pending ≡ some m
              → mem.handed address ≡ true)
            ⊎ ((call_dequeue read_one.tp).stopped ≡ 1)))
unfolding taking
relay_sends_example =
    relay_sends linux_abi down (chunk_kernel 1) zeros relay_sockets read_one-Reach taking
