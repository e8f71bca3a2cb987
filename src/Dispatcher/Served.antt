-- ===== src/Dispatcher/Served.antt =====
-- One request from the first reply to it to its end.
use private_distributed_clou.Prelude.{
  ℕ, ◌≡◌, ◌≢◌, sym, ◌∙◌, false, true, none, some, List, [], ◌∷◌, ◌++◌, arith, ℕ_discrete,
}
use mathlib.Core.Path.{subst}
use private_distributed_clou.Run.{done}
use private_distributed_clou.Assoc
use private_distributed_clou.IntSet
use private_distributed_clou.Net.{Kernel}
use private_distributed_clou.Net.Live.{IsLive}
use private_distributed_clou.Net.Duplex.{IsDuplex}
use private_distributed_clou.Nbd.{NbdAbi, reply_bytes}
use private_distributed_clou.Host.{RequestHost}
use private_distributed_clou.Host.Reply.{load_header, is_answered}
use private_distributed_clou.Host.Replies.{IsKept, take_replies-snoc, take_reply-IsKept}
use private_distributed_clou.Host.Completion.{take_replies, answers}
use private_distributed_clou.Dispatcher.{RequestDispatcher, iot_handle}
use private_distributed_clou.Dispatcher.Returns.{PeeksNumber}
use private_distributed_clou.Dispatcher.Answers.{
  Arrival, IsReplyTo, AllReplyTo, reply_of, replies_of, handle_arrivals, handle_arrivals-waiting,
  handle_last,
}

module _ (abi : NbdAbi) (k : Kernel) (live : (sock : ℕ) → IsLive k sock)
    (apart : (a b : ℕ) → IsDuplex k a b) (whole : (fd : ℕ) → PeeksNumber k fd) where
  -- Where the host of an entry takes all replies of a list and is answered then, and the last of them is the first one
  -- for its fragment, `IotHandle` returns for each; the last call removes the entry, changes no other
  -- one, and the block device has got the reply of the request.
  pub request_served :
      (d : RequestDispatcher) (uid : ℕ) (host after : RequestHost) (early : List (Arrival k))
      (last : Arrival k)
      → Assoc.find ℕ_discrete uid d.active_requests ≡ some host
      → AllReplyTo abi k uid host.nbq_req.req_type early
      → IsReplyTo abi k uid host.nbq_req.req_type last
      → IntSet.contains (load_header last.header).fragment_uid host.fragmentation_set ≡ true
      → answers (replies_of early) (load_header last.header).fragment_uid ≡ false
      → take_replies abi host (replies_of early ++ (reply_of last ∷ [])) ≡ some after
      → is_answered after ≡ true
      → (d1 d2 : RequestDispatcher) × (w' : k.World) × IsKept host after
        × (handle_arrivals abi k early d ≡ done d1)
        × (iot_handle abi k d1 last.fd last.at ≡ done (d2, w'))
        × (Assoc.find ℕ_discrete uid d2.active_requests ≡ none)
        × ((j : ℕ)
            → uid ≢ j
            → Assoc.find ℕ_discrete j d2.active_requests
              ≡ Assoc.find ℕ_discrete j d.active_requests)
        × (k.outgoing w' host.message.nbd_sock
            ≡ k.outgoing last.at host.message.nbd_sock ++ reply_bytes abi after.message 0)
  request_served d uid host after early last found to_all to_last waits fresh ran answered =
      let fragment = (load_header last.header).fragment_uid in
      let (mid, ran_early, got) =
        take_replies-snoc abi (replies_of early) host after fragment last.body ran in
      let (d1, handled, entry, kept, others) =
        handle_arrivals-waiting abi k live apart whole early d uid fragment host mid found waits
          fresh to_all ran_early in
      let kept_last = (take_reply-IsKept abi mid after fragment last.body got).0 in
      let sock : after.message.nbd_sock ≡ host.message.nbd_sock = kept_last.sock ∙ kept.sock in
      let (w', closed, out) =
        handle_last abi k live apart whole last d1 uid mid after entry
          (subst (λ t. IsReplyTo abi k uid t last) (sym kept.type) to_last) got answered in
      (
        d1,
        record d1 { active_requests = Assoc.erase ℕ_discrete uid d1.active_requests },
        w',
        record {
          type = kept_last.type ∙ kept.type;
          len = kept_last.len ∙ kept.len;
          sock = sock;
          reply = kept_last.reply ∙ kept.reply;
          room = kept_last.room ∙ kept.room;
        },
        handled,
        closed,
        ground (arith, Assoc.find-erase ℕ_discrete uid uid d1.active_requests),
        (λ j differs.
            ground (arith, differs, Assoc.find-erase ℕ_discrete uid j d1.active_requests)
            ∙ others j differs),
        subst (λ s. k.outgoing w' s ≡ k.outgoing last.at s ++ reply_bytes abi after.message 0) sock
            out,
      )
