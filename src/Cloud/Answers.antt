-- ===== src/Cloud/Answers.antt =====
-- A read from the first reply of a device to the reply that the block device gets.
use private_distributed_clou.Prelude.{
  ℕ, ◌+◌, ◌<◌, ◌^◌, ◌≡◌, ◌≢◌, ap, ◌∙◌, true, false, none, some, List, [], ◌∷◌, ◌++◌, length,
  length-take, take, arith, ℕ_discrete,
}
use private_distributed_clou.Run.{done}
use private_distributed_clou.Assoc
use private_distributed_clou.Memory.{get_elem?, get_elem?-take}
use private_distributed_clou.Net.{Kernel}
use private_distributed_clou.Net.Live.{IsLive}
use private_distributed_clou.Net.Duplex.{IsDuplex}
use private_distributed_clou.Nbd.{NbdAbi, NbdMessage, reply_bytes}
use private_distributed_clou.Host.{RequestHost, create_host, fragment_count}
use private_distributed_clou.Host.Reply.{load_header}
use private_distributed_clou.Host.Completion.{answers, contains-create_host}
use private_distributed_clou.Dispatcher.{RequestDispatcher, iot_handle}
use private_distributed_clou.Dispatcher.Returns.{PeeksNumber}
use private_distributed_clou.Dispatcher.Served.{request_served}
use private_distributed_clou.Dispatcher.Answers.{
  Arrival, IsReplyTo, AllReplyTo, reply_of, replies_of, handle_arrivals,
}
use private_distributed_clou.Cloud.{IotDevice, IsAligned, Devices, disk}
use private_distributed_clou.Cloud.Reads.{AreAnswers, read_refines}

-- The last reply of a list is for a fragment of the request.
AreAnswers-last :
    {abi : NbdAbi} (device : IotDevice abi) (host : RequestHost) (socket : ℕ → ℕ)
    (seen : ℕ → List ℕ) (devices : Devices device) (replies : List (ℕ × List ℕ)) (fragment : ℕ)
    (bytes : List ℕ)
    → AreAnswers device host socket seen devices (replies ++ ((fragment, bytes) ∷ []))
    → fragment < fragment_count host.nbq_req
AreAnswers-last device host socket seen devices [] fragment bytes all = all.0
AreAnswers-last device host socket seen devices ((f, bs) ∷ replies) fragment bytes all =
    AreAnswers-last device host socket seen devices replies fragment bytes all.2

module _ {abi : NbdAbi} (k : Kernel) (live : (sock : ℕ) → IsLive k sock)
    (apart : (a b : ℕ) → IsDuplex k a b) (whole : (fd : ℕ) → PeeksNumber k fd) where
  -- A read of whole fragments within devices that answer with what they hold, from its entry in the table, on sockets
  -- whose calls do not fail and keep their directions apart and with the numbers of the replies visible
  -- to the peek: `IotHandle` returns for every reply to it, in whatever order they come, and keeps the entry while a
  -- fragment is not answered. The call for the last fragment removes the entry, changes no other entry, and the
  -- block device gets the reply with the handle of the request, and behind it, in full length, the part of the disk
  -- that was asked for.
  pub read_served :
      (device : IotDevice abi) (d : RequestDispatcher) (next_uid : ℕ) (m : NbdMessage)
      (socket : ℕ → ℕ) (devices : Devices device) (seen : ℕ → List ℕ) (early : List (Arrival k))
      (last : Arrival k)
      → let host = (create_host next_uid m).0 in
        let all = replies_of early ++ (reply_of last ∷ []) in
        IsAligned device m.nbd_req
        → m.nbd_req.req_type ≡ abi.cmd_read
        → m.nbd_req.data_len < 2 ^ 32
        → length m.nbd_req.data_buf ≡ m.nbd_req.data_len
        → Assoc.find ℕ_discrete host.req_uid d.active_requests ≡ some host
        → AllReplyTo abi k host.req_uid m.nbd_req.req_type early
        → IsReplyTo abi k host.req_uid m.nbd_req.req_type last
        → AreAnswers device host socket seen devices all
        → ((i : ℕ) → i < fragment_count m.nbd_req → answers all i ≡ true)
        → answers (replies_of early) (load_header last.header).fragment_uid ≡ false
        → (d1 d2 : RequestDispatcher) × (w' : k.World) × (bytes : List ℕ) × (handle_arrivals abi k
              early d
            ≡ done d1)
          × (iot_handle abi k d1 last.fd last.at ≡ done (d2, w'))
          × (Assoc.find ℕ_discrete host.req_uid d2.active_requests ≡ none)
          × ((j : ℕ)
              → host.req_uid ≢ j
              → Assoc.find ℕ_discrete j d2.active_requests
                ≡ Assoc.find ℕ_discrete j d.active_requests)
          × (k.outgoing w' m.nbd_sock
              ≡ k.outgoing last.at m.nbd_sock
                ++ (abi.encode_reply (record (m.reply) { error = abi.htonl 0 }) ++ bytes))
          × (length bytes ≡ m.nbd_req.data_len)
          × ((i : ℕ)
              → i < m.nbd_req.data_len
              → get_elem? bytes i ≡ disk device socket devices (m.nbd_req.offset + i))
  unfolding create_host reply_bytes
  read_served device d next_uid m socket devices seen early last aligned e small size found to_all
        to_last answered complete fresh =
      let host = (create_host next_uid m).0 in
      let fragment = (load_header last.header).fragment_uid in
      let (after, ran, waits, held) =
        read_refines device next_uid m socket devices seen _ aligned e small size answered in
      let inside =
        AreAnswers-last device host socket seen devices (replies_of early) fragment last.body
          answered in
      let (d1, d2, w', kept, handled, closed, gone, others, out) =
        request_served abi k live apart whole d host.req_uid host after early last found to_all
          to_last (ground (arith, contains-create_host next_uid m fragment, inside)) fresh ran
          (waits.1 complete) in
      let bytes = take m.nbd_req.data_len after.nbq_req.data_buf in
      let answer : reply_bytes abi after.message 0
          ≡ abi.encode_reply (record (m.reply) { error = abi.htonl 0 }) ++ bytes =
        ground (arith, kept.type, e, kept.len, kept.reply) in
      (
        d1,
        d2,
        w',
        bytes,
        handled,
        closed,
        gone,
        others,
        out ∙ ap (◌++◌ (k.outgoing last.at m.nbd_sock)) answer,
        omega (arith, length-take m.nbd_req.data_len after.nbq_req.data_buf, kept.room, size),
        λ i lt.
            ground (arith, lt, get_elem?-take m.nbd_req.data_len after.nbq_req.data_buf i)
            ∙ held (waits.1 complete) i lt,
      )
