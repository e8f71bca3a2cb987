-- ===== src/Examples/Histories.antt =====
-- A write of one fragment that is read and answered.
use private_distributed_clou.Prelude.{
  ℕ, ◌≡◌, refl, ap, List, [], ◌∷◌, ◌++◌, slice, arith, ℕ_discrete,
}
use private_distributed_clou.Run.{done, ◌>>=◌}
use private_distributed_clou.Assoc
use private_distributed_clou.IntSet
use private_distributed_clou.Net.{recv_all, write_all}
use private_distributed_clou.Nbd.{NbdMessage, message_of, nbd_request_read, nbd_request_done}
use private_distributed_clou.Nbd.Returns.{nbd_request_read_returns}
use private_distributed_clou.Host.{create_host, insert_fragments}
use private_distributed_clou.Host.Reply.{load32, load_header, peek, read_reply, take_reply}
use private_distributed_clou.Dispatcher.{
  RequestDispatcher, new_dispatcher, admit, nbd_requests_handle, iot_handle,
}
use private_distributed_clou.Dispatcher.Serving.{
  reply_head, Reach, IsHistory, asks, answers, passes, start, later,
}
use private_distributed_clou.Dispatcher.History.{Reach-IsHistory}
use private_distributed_clou.Kernels.{chunk_kernel-IsLive, Wire, chunk_kernel, linux_abi}
use private_distributed_clou.Examples.Clouds.{tabulate, length-tabulate}

-- A write of 1024 bytes at 0.
abbrev write_header : List ℕ
write_header =
    0x25 ∷ 0x60 ∷ 0x95 ∷ 0x13 ∷ 0 ∷ 0 ∷ 0 ∷ 1 ∷ 8 ∷ 2 ∷ 3 ∷ 4 ∷ 5 ∷ 6 ∷ 7 ∷ 8 ∷ 0 ∷ 0 ∷ 0 ∷ 0 ∷ 0
    ∷ 0 ∷ 0 ∷ 0 ∷ 0 ∷ 0 ∷ 4 ∷ 0 ∷ []

abbrev fragment_bytes : List ℕ
fragment_bytes = tabulate 1024 (λ i. i)

abbrev garbage : ℕ → List ℕ
garbage n = []

abbrev ports : ℕ → ℕ
ports i = i

abbrev writing : Wire
writing = record { inbox = write_header ++ (fragment_bytes ++ []); outbox = [] }

abbrev written : NbdMessage
written = message_of linux_abi 0 (linux_abi.decode_request write_header) fragment_bytes

read_in :
    (w' : Wire) × (nbd_request_read linux_abi (chunk_kernel 100) garbage 0 writing
      ≡ done (written, w'))
    × (w'.inbox ≡ [])
unfolding slice
read_in =
    nbd_request_read_returns linux_abi (chunk_kernel 100) 0 garbage write_header fragment_bytes []
      writing (chunk_kernel-IsLive 99 0) refl refl refl (length-tabulate 1024 (λ i. i)) refl

-- The request has entered the table.
abbrev entered : RequestDispatcher
entered = (admit new_dispatcher ports written).0

entered-Reach :
    Reach linux_abi
      (chunk_kernel 100)
      garbage
      writing
      (record { dispatcher = entered; asked = written ∷ []; replied = []; io = read_in.0 })
unfolding nbd_requests_handle
entered-Reach = later start (
    asks ports written read_in.0 read_in.0 entered (admit new_dispatcher ports written).1 read_in.1
      (ap
        (λ r. r >>= λ x.
          done ((admit new_dispatcher ports x.0).0, (admit new_dispatcher ports x.0).1, x.1))
        read_in.1))

-- The reply for the fragment 0 of the request 0.
abbrev reply_wire : Wire
reply_wire = record {
  inbox =
      0 ∷ 0 ∷ 0 ∷ 0 ∷ 0 ∷ 0 ∷ 0 ∷ 0 ∷ 0 ∷ 0 ∷ 0 ∷ 0 ∷ 0 ∷ 0 ∷ 0 ∷ 0 ∷ 1 ∷ 0 ∷ 0 ∷ 0 ∷ 0 ∷ 4 ∷ 0 ∷ 0
      ∷ [];
  outbox = [];
}

abbrev emptied : RequestDispatcher
emptied = record { active_requests = []; next_uid = 1 }

abbrev answered_wire : Wire
answered_wire = record { inbox = []; outbox = written.reply.handle }

reply_seen : reply_head (chunk_kernel 100) 5 reply_wire ≡ done (0, 0)
unfolding reply_head peek recv_all load_header load32 slice
reply_seen = refl

reply_taken :
    iot_handle linux_abi (chunk_kernel 100) entered 5 reply_wire ≡ done (emptied, answered_wire)
unfolding iot_handle peek recv_all read_reply take_reply nbd_request_done load_header load32 slice
    ℕ_discrete Assoc.find Assoc.erase Assoc.insert IntSet.erase IntSet.is_empty write_all admit
    create_host insert_fragments IntSet.insert new_dispatcher message_of
reply_taken = refl

Reach-IsHistory_example : IsHistory {k = chunk_kernel 100} (record {
  dispatcher = emptied;
  asked = written ∷ [];
  replied = (0, 0) ∷ [];
  io = answered_wire;
})
Reach-IsHistory_example =
    Reach-IsHistory linux_abi (chunk_kernel 100) garbage
      (later (later entered-Reach (passes reply_wire))
        (answers 5 0 0 answered_wire emptied reply_seen reply_taken))
      (omega arith)
