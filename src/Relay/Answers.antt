-- ===== src/Relay/Answers.antt =====
-- A read that goes through NbdHandle to the device and comes back through IotHandle of the relays.
use private_distributed_clou.Prelude.{
  ℕ, ◌+◌, ◌*◌, ◌≡◌, ap, ◌∙◌, some, List, ◌++◌, length, slice, ℕ_discrete, Option, none, ==_iff,
}
use private_distributed_clou.Run.{Run, done, fault, ◌>>=◌}
use private_distributed_clou.Assoc
use private_distributed_clou.Net.{Kernel}
use private_distributed_clou.Net.Live.{IsLive}
use private_distributed_clou.Net.Duplex.{IsDuplex, read_all_keeps, write_all_keeps}
use private_distributed_clou.Nbd.{NbdAbi, NbdMessage, message_of, nbd_request_done, reply_bytes}
use private_distributed_clou.Nbd.Returns.{read_known, nbd_request_done_returns}
use private_distributed_clou.Nbd.Exchange.{
  SentRequest, IsSent, message_sent, answer_to, nbd_request_read_sent,
}
use private_distributed_clou.Host.Reply.{load32}
use private_distributed_clou.Relay.{
  Pending, RelayMessage, convert_to_atlas, relay_message, relay_nbd_handle, relay_receive,
  relay_answer, relay_iot_handle,
}

-- The address in the header of a reply.
abbrev pub load64 : List ℕ → ℕ
load64 bs = load32 bs + 4294967296 * load32 (slice 4 4 bs)

module _ (abi : NbdAbi) (k : Kernel) (socfd : ℕ → ℕ) (malloced : ℕ → List ℕ)
    (nbd_live : IsLive k (socfd 0)) (iot_live : IsLive k (socfd 1)) where
  -- `IotHandle` on the reply to a pending read.
  relay_iot_handle_read :
      (q : SentRequest) (pending : Pending) (w : k.World) (reply bytes rest : List ℕ)
      → IsDuplex k (socfd 1) (socfd 0)
      → IsDuplex k (socfd 0) (socfd 1)
      → abi.ntohl (abi.decode_request q.header).type ≡ abi.cmd_read
      → Assoc.find ℕ_discrete (load64 reply) pending ≡ some (message_sent abi malloced (socfd 0) q)
      → length reply ≡ 24
      → length bytes ≡ abi.ntohl (abi.decode_request q.header).len
      → k.incoming w (socfd 1) ≡ reply ++ (bytes ++ rest)
      → (w' : k.World) × (relay_iot_handle abi k socfd pending w
          ≡ done (Assoc.erase ℕ_discrete (load64 reply) pending, w'))
        × (k.incoming w' (socfd 1) ≡ rest)
        × (k.outgoing w' (socfd 0)
            ≡ k.outgoing w (socfd 0) ++ answer_to abi malloced (socfd 0) q bytes)
  unfolding relay_iot_handle relay_answer relay_receive message_sent message_of answer_to
      nbd_request_done
  relay_iot_handle_read q pending w reply bytes rest keeps_nbd keeps_iot type found rlen blen
        stream =
      let raw = abi.decode_request q.header in
      let (w1, good1, stream1) =
        read_known k (socfd 1) 24 w reply (bytes ++ rest) iot_live rlen stream in
      let (w2, good2, stream2) =
        read_known k (socfd 1) (abi.ntohl raw.len) w1 bytes rest iot_live blen stream1 in
      let (w3, put, out) = nbd_request_done_returns abi k (socfd 0) raw bytes 0 w2 nbd_live in
      let kept1 = read_all_keeps k (socfd 1) (socfd 0) keeps_nbd 24 w good1 in
      let kept2 = read_all_keeps k (socfd 1) (socfd 0) keeps_nbd (abi.ntohl raw.len) w1 good2 in
      let left =
        write_all_keeps k (socfd 0) (socfd 1) keeps_iot
          (reply_bytes abi (message_of abi (socfd 0) raw bytes) 0) w2 put in
      let received : relay_receive abi k (socfd 1) (message_sent abi malloced (socfd 0) q) w1
          ≡ done (message_of abi (socfd 0) raw bytes, w2) =
        rw ((==_iff _ _).1 type)
          (ap (λ r. r >>= λ x. done (message_of abi (socfd 0) raw x.0, x.1)) good2) in
      (
        w3,
        ap (λ h. h >>= λ head. relay_answer abi k (socfd 1) (load64 head.0) pending head.1) good1
            ∙ ap (answered w1) found
            ∙ ap (λ r. r >>= closed) received
            ∙ ap (λ r. r >>= λ w'. done (Assoc.erase ℕ_discrete (load64 reply) pending, w')) put,
        left ∙ stream2,
        out ∙ ap (λ x. x ++ answer_to abi malloced (socfd 0) q bytes) (kept2 ∙ kept1),
      )
    where
      closed : NbdMessage × k.World → Run (Pending × k.World)
      closed r = nbd_request_done abi k r.0 0 r.1 >>= λ w'.
          done (Assoc.erase ℕ_discrete (load64 reply) pending, w')

      answered : k.World → Option NbdMessage → Run (Pending × k.World)
      answered v o = elim o [ none ↦ fault | some m ↦ relay_receive abi k (socfd 1) m v >>= closed ]

  -- A read goes through `NbdHandle` to the device and comes back through `IotHandle`, on sockets whose calls do not
  -- fail and keep their two directions apart: `NbdHandle` keeps the request at its address and makes a message for
  -- the device; when a reply with the address of that message's header and as many bytes as it asks for
  -- is on the device's stream, in any later state in which the request is still kept at its address, `IotHandle`
  -- gives the block device the reply with the handle of the request and exactly these bytes, forgets the
  -- request, and leaves the rest of the stream.
  pub relay_read_returns :
      (address : ℕ) (q : SentRequest) (pending later : Pending) (w v : k.World)
      (rest reply bytes others : List ℕ)
      → IsDuplex k (socfd 0) (socfd 0)
      → IsDuplex k (socfd 1) (socfd 0)
      → IsDuplex k (socfd 0) (socfd 1)
      → IsSent abi q
      → abi.ntohl (abi.decode_request q.header).type ≡ abi.cmd_read
      → k.incoming w (socfd 0) ≡ q.header ++ (q.payload ++ rest)
      → Assoc.find ℕ_discrete address later ≡ some (message_sent abi malloced (socfd 0) q)
      → length reply ≡ 24
      → load64 reply
        ≡ (relay_message abi
            (socfd 1)
            address
            (message_sent abi malloced (socfd 0) q).nbd_req).header.request_uid
      → length bytes
        ≡ (relay_message abi
            (socfd 1)
            address
            (message_sent abi malloced (socfd 0) q).nbd_req).header.len
      → k.incoming v (socfd 1) ≡ reply ++ (bytes ++ others)
      → (w' : k.World) × (v' : k.World) × (relay_nbd_handle abi k malloced address socfd pending w
          ≡ done (
            Assoc.insert ℕ_discrete address (message_sent abi malloced (socfd 0) q) pending,
            relay_message abi (socfd 1) address (message_sent abi malloced (socfd 0) q).nbd_req,
            w',
          ))
        × (k.incoming w' (socfd 0) ≡ rest)
        × (relay_iot_handle abi k socfd later v ≡ done (Assoc.erase ℕ_discrete address later, v'))
        × (k.incoming v' (socfd 1) ≡ others)
        × (k.outgoing v' (socfd 0)
            ≡ k.outgoing v (socfd 0) ++ answer_to abi malloced (socfd 0) q bytes)
  unfolding relay_nbd_handle relay_message convert_to_atlas message_sent message_of
  relay_read_returns address q pending later w v rest reply bytes others own keeps_nbd keeps_iot
        sent type stream kept rlen uid blen back =
      let (w1, got, left, silent) =
        nbd_request_read_sent abi malloced (socfd 0) k nbd_live own q rest w sent stream in
      let (v1, ran, left2, out) =
        relay_iot_handle_read q later v reply bytes others keeps_nbd keeps_iot type
          (ap (λ a. Assoc.find ℕ_discrete a later) uid ∙ kept) rlen blen back in
      (
        w1,
        v1,
        ap (λ r. r >>= stored) got,
        left,
        ran ∙ ap (λ a. done (Assoc.erase ℕ_discrete a later, v1)) uid,
        left2,
        out,
      )
    where
      stored : NbdMessage × k.World → Run (Pending × RelayMessage × k.World)
      stored r = done (
        Assoc.insert ℕ_discrete address r.0 pending,
        relay_message abi (socfd 1) address r.0.nbd_req,
        r.1,
      )
