-- ===== src/Dispatcher/Answers.antt =====
-- All replies to one request, which IotHandle takes one after the other.
use private_distributed_clou.Prelude.{
  ℕ, ◌≡◌, ◌≢◌, refl, ap, sym, ◌∙◌, true, false, inl, inr, some, List, [], ◌∷◌, ◌++◌, length, ◌==◌,
  if◌then◌else◌, arith, ℕ_discrete,
}
use mathlib.Core.Path.{subst}
use private_distributed_clou.Run.{Run, done, ◌>>=◌}
use private_distributed_clou.Assoc
use private_distributed_clou.IntSet
use private_distributed_clou.Net.{Kernel}
use private_distributed_clou.Net.Live.{IsLive}
use private_distributed_clou.Net.Duplex.{IsDuplex}
use private_distributed_clou.Nbd.{NbdAbi, reply_bytes}
use private_distributed_clou.Command.{header_size}
use private_distributed_clou.Host.{RequestHost, frag_size}
use private_distributed_clou.Host.Reply.{load32, load_header, take_reply, is_answered}
use private_distributed_clou.Host.Replies.{IsKept, take_reply-IsKept, take_replies-cons}
use private_distributed_clou.Host.Completion.{take_replies, answers}
use private_distributed_clou.Dispatcher.{RequestDispatcher, iot_handle}
use private_distributed_clou.Dispatcher.Returns.{PeeksNumber, iot_handle_returns}

-- A reply on the stream of a device, when the reactor calls `IotHandle` for it.
pub record Arrival (k : Kernel) : Type 0 where
  pub fd : ℕ
  pub at : k.World
  pub header : List ℕ
  pub body : List ℕ
  pub rest : List ℕ

-- Its number is that of the request, and its data are one fragment if the request is a read.
pub record IsReplyTo (abi : NbdAbi) (k : Kernel) (uid type : ℕ) (a : Arrival k) : Type 0 where
  pub stream : k.incoming a.at a.fd ≡ a.header ++ (a.body ++ a.rest)
  pub size : length a.header ≡ header_size
  pub number : load32 a.header ≡ uid
  pub follows : length a.body ≡ (if type == abi.cmd_read then frag_size else 0)

unfoldable pub AllReplyTo : (abi : NbdAbi) (k : Kernel) → ℕ → ℕ → List (Arrival k) → Type 0
AllReplyTo abi k uid type [] = Unit
AllReplyTo abi k uid type (a ∷ more) = IsReplyTo abi k uid type a × AllReplyTo abi k uid type more

-- The fragment of a reply, and its data.
abbrev pub reply_of : {k : Kernel} → Arrival k → ℕ × List ℕ
reply_of a = ((load_header a.header).fragment_uid, a.body)

unfoldable pub replies_of : {k : Kernel} → List (Arrival k) → List (ℕ × List ℕ)
replies_of [] = []
replies_of (a ∷ more) = reply_of a ∷ replies_of more

-- The calls of `IotHandle`, in order. Between two of them other handlers may move bytes.
unfoldable pub handle_arrivals :
    (abi : NbdAbi) (k : Kernel) → List (Arrival k) → RequestDispatcher → Run RequestDispatcher
unfolding iot_handle
handle_arrivals abi k [] d = done d
handle_arrivals abi k (a ∷ more) d =
    iot_handle abi k d a.fd a.at >>= λ r. handle_arrivals abi k more r.0

module _ (abi : NbdAbi) (k : Kernel) (live : (sock : ℕ) → IsLive k sock)
    (apart : (a b : ℕ) → IsDuplex k a b) (whole : (fd : ℕ) → PeeksNumber k fd) where
  -- A host that waits for a fragment still does so after a reply for another one, and is not answered.
  still_waiting :
      (host next : RequestHost) (fragment f : ℕ) (bytes : List ℕ)
      → take_reply abi host fragment bytes ≡ some next
      → IntSet.contains f host.fragmentation_set ≡ true
      → (fragment == f) ≡ false
      → (IntSet.contains f next.fragmentation_set ≡ true) × (is_answered next ≢ true)
  still_waiting host next fragment f bytes got waits other =
      let struck = (take_reply-IsKept abi host next fragment bytes got).1 in
      let here : IntSet.contains f next.fragmentation_set ≡ true =
        ap (IntSet.contains f) struck
        ∙ IntSet.contains-erase f fragment host.fragmentation_set
        ∙ rw (other, waits) refl in
      (here, λ all. ground (arith, here, IntSet.none_of_is_empty next.fragmentation_set all f))

  -- One reply that is not the last one.
  handle_arrival :
      (a : Arrival k) (d : RequestDispatcher) (uid f : ℕ) (host next : RequestHost)
      → Assoc.find ℕ_discrete uid d.active_requests ≡ some host
      → IntSet.contains f host.fragmentation_set ≡ true
      → ((load_header a.header).fragment_uid == f) ≡ false
      → IsReplyTo abi k uid host.nbq_req.req_type a
      → take_reply abi host (load_header a.header).fragment_uid a.body ≡ some next
      → (w' : k.World) × (iot_handle abi k d a.fd a.at
          ≡ done (
            record d { active_requests = Assoc.insert ℕ_discrete uid next d.active_requests },
            w',
          ))
  handle_arrival a d uid f host next found waits other reply got =
      let (w', left, result) =
        iot_handle_returns abi k d a.fd a.at host next a.header a.body a.rest live apart
          (whole a.fd) reply.stream reply.size
          (ap (λ u. Assoc.find ℕ_discrete u d.active_requests) reply.number ∙ found) reply.follows
          got in
      let waiting = still_waiting host next _ f a.body got waits other in
      elim result [
        | inl last ↦ absurd (waiting.1 last.0)
        | inr more ↦ (
          w',
          more.1
              ∙ ap
                  (λ u. done (
                    record d { active_requests = Assoc.insert ℕ_discrete u next d.active_requests },
                    w',
                  ))
                  reply.number,
        )
      ]

  -- Replies to a request while one of its fragments is not answered.
  pub handle_arrivals-waiting :
      (early : List (Arrival k)) (d : RequestDispatcher) (uid f : ℕ) (host after : RequestHost)
      → Assoc.find ℕ_discrete uid d.active_requests ≡ some host
      → IntSet.contains f host.fragmentation_set ≡ true
      → answers (replies_of early) f ≡ false
      → AllReplyTo abi k uid host.nbq_req.req_type early
      → take_replies abi host (replies_of early) ≡ some after
      → (d' : RequestDispatcher) × (handle_arrivals abi k early d ≡ done d')
        × (Assoc.find ℕ_discrete uid d'.active_requests ≡ some after)
        × IsKept host after
        × ((j : ℕ)
            → uid ≢ j
            → Assoc.find ℕ_discrete j d'.active_requests
              ≡ Assoc.find ℕ_discrete j d.active_requests)
  unfolding handle_arrivals answers AllReplyTo take_replies replies_of
  handle_arrivals-waiting [] d uid f host after found waits none_for all run =
      let same : host ≡ after = cc in
      (
        d,
        refl,
        found ∙ ap some same,
        rw same (record { type = refl; len = refl; sock = refl; reply = refl; room = refl }),
        λ j other. refl,
      )
  handle_arrivals-waiting (a ∷ more) d uid f host after found waits none_for all run =
      let fragment = (load_header a.header).fragment_uid in
      let other : (fragment == f) ≡ false = ground arith in
      let (next, got, others) =
        take_replies-cons abi host after fragment a.body (replies_of more) run in
      let kept = (take_reply-IsKept abi host next fragment a.body got).0 in
      let (w', ran) = handle_arrival a d uid f host next found waits other all.0 got in
      let d1 : RequestDispatcher = record d {
        active_requests = Assoc.insert ℕ_discrete uid next d.active_requests;
      } in
      let (d', rest, found', kept', apart') =
        handle_arrivals-waiting more d1 uid f next after
          (ground (arith, Assoc.find-insert ℕ_discrete uid uid next d.active_requests))
          (still_waiting host next fragment f a.body got waits other).0 (ground arith)
          (subst (λ t. AllReplyTo abi k uid t more) (sym kept.type) all.1) others in
      (
        d',
        ap (λ r. r >>= λ x. handle_arrivals abi k more x.0) ran ∙ rest,
        found',
        record {
          type = kept'.type ∙ kept.type;
          len = kept'.len ∙ kept.len;
          sock = kept'.sock ∙ kept.sock;
          reply = kept'.reply ∙ kept.reply;
          room = kept'.room ∙ kept.room;
        },
        λ j differs.
            apart' j differs
            ∙ ground (arith, differs, Assoc.find-insert ℕ_discrete uid j next d.active_requests),
      )

  -- The last reply.
  pub handle_last :
      (a : Arrival k) (d : RequestDispatcher) (uid : ℕ) (host after : RequestHost)
      → Assoc.find ℕ_discrete uid d.active_requests ≡ some host
      → IsReplyTo abi k uid host.nbq_req.req_type a
      → take_reply abi host (load_header a.header).fragment_uid a.body ≡ some after
      → is_answered after ≡ true
      → (w' : k.World) × (iot_handle abi k d a.fd a.at
          ≡ done (record d { active_requests = Assoc.erase ℕ_discrete uid d.active_requests }, w'))
        × (k.outgoing w' after.message.nbd_sock
            ≡ k.outgoing a.at after.message.nbd_sock ++ reply_bytes abi after.message 0)
  handle_last a d uid host after found reply got all =
      let (w', left, result) =
        iot_handle_returns abi k d a.fd a.at host after a.header a.body a.rest live apart
          (whole a.fd) reply.stream reply.size
          (ap (λ u. Assoc.find ℕ_discrete u d.active_requests) reply.number ∙ found) reply.follows
          got in
      elim result [
        | inl last ↦ (
          w',
          last.1
              ∙ ap
                  (λ u.
                    done (
                      record d { active_requests = Assoc.erase ℕ_discrete u d.active_requests },
                      w',
                    ))
                  reply.number,
          last.2,
        )
        | inr more ↦ absurd (ground (arith, all, more.0))
      ]
