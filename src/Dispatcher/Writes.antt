-- ===== src/Dispatcher/Writes.antt =====
-- A write from the first reply of a device to the reply that the block device gets.
use private_distributed_clou.Prelude.{
  ℕ, ◌<◌, ◌≡◌, ◌≢◌, refl, ap, ◌∙◌, false, true, not, ◌&&◌, none, some, List, [], ◌∷◌, ◌++◌, arith,
  ℕ_discrete,
}
use mathlib.Core.Option
use mathlib.Core.List.{append-nil}
use private_distributed_clou.Dispatcher.Served.{request_served}
use private_distributed_clou.Run.{done}
use private_distributed_clou.Assoc
use private_distributed_clou.IntSet
use private_distributed_clou.Net.{Kernel}
use private_distributed_clou.Net.Live.{IsLive}
use private_distributed_clou.Net.Duplex.{IsDuplex}
use private_distributed_clou.Nbd.{NbdAbi, NbdMessage, reply_bytes}
use private_distributed_clou.Host.{RequestHost, create_host, fragment_count}
use private_distributed_clou.Host.Reply.{load_header, take_reply, forget_fragment, is_answered}
use private_distributed_clou.Host.Completion.{take_replies, answers, contains-create_host}
use private_distributed_clou.Dispatcher.{RequestDispatcher, iot_handle}
use private_distributed_clou.Dispatcher.Returns.{PeeksNumber}
use private_distributed_clou.Dispatcher.Answers.{
  Arrival, IsReplyTo, AllReplyTo, reply_of, replies_of, handle_arrivals,
}

-- Replies to a request that is no read are all taken, and strike off their fragments.
take_replies-other :
    (abi : NbdAbi) (replies : List (ℕ × List ℕ)) (host : RequestHost)
    → host.nbq_req.req_type ≢ abi.cmd_read
    → (after : RequestHost) × (take_replies abi host replies ≡ some after)
      × ((k : ℕ)
          → IntSet.contains k after.fragmentation_set
            ≡ (IntSet.contains k host.fragmentation_set && not (answers replies k)))
unfolding take_replies take_reply answers Option.bind forget_fragment
take_replies-other abi [] host other = (host, refl, λ k. ground arith)
take_replies-other abi ((fragment, bytes) ∷ replies) host other =
    let (after, ran, struck) =
      take_replies-other abi replies (forget_fragment host fragment) other in
    (
      after,
      ground (arith, other, ran),
      λ k. ground (arith, struck k, IntSet.contains-erase k fragment host.fragmentation_set),
    )

module _ (abi : NbdAbi) (k : Kernel) (live : (sock : ℕ) → IsLive k sock)
    (apart : (a b : ℕ) → IsDuplex k a b) (whole : (fd : ℕ) → PeeksNumber k fd) where
  -- A request that is no read, such as a write, from its entry in the table, on sockets whose calls do not fail
  -- and keep their directions apart and with the numbers of the replies visible to the peek: `IotHandle` returns
  -- for every reply to it, in whatever order they come, and keeps the entry while a fragment is not answered.
  -- The call for the last fragment removes the entry, changes no other entry, and the block device gets
  -- the reply with the handle of the request and no data.
  pub write_served :
      (d : RequestDispatcher) (next_uid : ℕ) (m : NbdMessage) (early : List (Arrival k))
      (last : Arrival k)
      → let host = (create_host next_uid m).0 in
        let all = replies_of early ++ (reply_of last ∷ []) in
        m.nbd_req.req_type ≢ abi.cmd_read
        → Assoc.find ℕ_discrete host.req_uid d.active_requests ≡ some host
        → AllReplyTo abi k host.req_uid m.nbd_req.req_type early
        → IsReplyTo abi k host.req_uid m.nbd_req.req_type last
        → (load_header last.header).fragment_uid < fragment_count m.nbd_req
        → ((i : ℕ) → i < fragment_count m.nbd_req → answers all i ≡ true)
        → answers (replies_of early) (load_header last.header).fragment_uid ≡ false
        → (d1 d2 : RequestDispatcher) × (w' : k.World) × (handle_arrivals abi k early d ≡ done d1)
          × (iot_handle abi k d1 last.fd last.at ≡ done (d2, w'))
          × (Assoc.find ℕ_discrete host.req_uid d2.active_requests ≡ none)
          × ((j : ℕ)
              → host.req_uid ≢ j
              → Assoc.find ℕ_discrete j d2.active_requests
                ≡ Assoc.find ℕ_discrete j d.active_requests)
          × (k.outgoing w' m.nbd_sock
              ≡ k.outgoing last.at m.nbd_sock
                ++ abi.encode_reply (record (m.reply) { error = abi.htonl 0 }))
  unfolding create_host reply_bytes
  write_served d next_uid m early last other found to_all to_last inside complete fresh =
      let host = (create_host next_uid m).0 in
      let fragment = (load_header last.header).fragment_uid in
      let (after, ran, struck) =
        take_replies-other abi (replies_of early ++ (reply_of last ∷ [])) host other in
      let answered : is_answered after ≡ true =
        IntSet.is_empty_of_none after.fragmentation_set
          (λ i. ground (arith, struck i, contains-create_host next_uid m i, complete i)) in
      let (d1, d2, w', kept, handled, closed, gone, others, out) =
        request_served abi k live apart whole d host.req_uid host after early last found to_all
          to_last (ground (arith, contains-create_host next_uid m fragment, inside)) fresh ran
          answered in
      let answer : reply_bytes abi after.message 0
          ≡ abi.encode_reply (record (m.reply) { error = abi.htonl 0 }) ++ [] =
        ground (arith, kept.type, other, kept.reply) in
      (
        d1,
        d2,
        w',
        handled,
        closed,
        gone,
        others,
        out ∙ ap (◌++◌ (k.outgoing last.at m.nbd_sock)) (answer ∙ append-nil _),
      )
