-- ===== src/Dispatcher/History.antt =====
-- What the table holds after any calls of both handlers.
use private_distributed_clou.Prelude.{
  ℕ, ◌<◌, ◌^◌, ◌≡◌, inl, inr, refl, ap, sym, ◌∙◌, true, false, List, [], ◌∷◌, ◌++◌, length,
  length-append, ◌==◌, arith, Bool-cases,
}
use mathlib.Core.Path.{subst}
use private_distributed_clou.Run.{done, done_parts}
use private_distributed_clou.Assoc
use private_distributed_clou.IntSet
use private_distributed_clou.Memory.{get_elem?}
use private_distributed_clou.Net.{Kernel}
use private_distributed_clou.Nbd.{NbdAbi}
use private_distributed_clou.Host.{RequestHost, fragment_count}
use private_distributed_clou.Host.Reply.{load_header, is_answered}
use private_distributed_clou.Host.Replies.{take_reply-IsKept}
use private_distributed_clou.Dispatcher.{RequestDispatcher, new_dispatcher}
use private_distributed_clou.Dispatcher.Table.{Handled, iot_handle-Handled}
use private_distributed_clou.Dispatcher.Serving.{
  Serving, reply_head, asks, answers, passes, Reach, start, later, is_replied, IsWaiting, IsHistory,
  get_elem?-lt,
}
use private_distributed_clou.Dispatcher.Admitted.{request-IsHistory, admitted}

module _ (abi : NbdAbi) (k : Kernel) where
  -- The reply that was taken is the one whose number and fragment were at the front of the stream.
  pub reply_head-Handled :
      (fd : ℕ) (w w' : k.World) (d d' : RequestDispatcher) (h : Handled abi k fd w w' d d')
      → reply_head k fd w ≡ done (h.uid, (load_header h.read.head.0).fragment_uid)
  unfolding reply_head
  reply_head-Handled fd w w' d d' h = rw (h.seen, h.read.got) refl

  -- The host behind a reply to it waits for the other fragments.
  replied_entry :
      (s : Serving k) (fd : ℕ) (w' : k.World) (d' : RequestDispatcher)
      (h : Handled abi k fd s.io w' s.dispatcher d')
      → is_answered h.after ≡ false
      → IsWaiting s h.uid h.before
      → IsWaiting
          (record s {
            dispatcher = d';
            replied = (h.uid, (load_header h.read.head.0).fragment_uid) ∷ s.replied;
            io = w';
          })
          h.uid
          h.after
  unfolding is_replied
  replied_entry s fd w' d' h more v =
      let fragment = (load_header h.read.head.0).fragment_uid in
      let struck = (take_reply-IsKept abi h.before h.after fragment h.read.bytes h.read.taken).1 in
      record {
        own_uid = h.same_uid ∙ v.own_uid;
        request = v.request;
        was_asked = v.was_asked;
        waits = λ i. ground (
          arith,
          ap (IntSet.contains i) struck,
          IntSet.contains-erase i fragment h.before.fragmentation_set,
          v.waits i,
        );
        still = λ none_left. cc;
      }

  -- When it waits for none, each fragment of its request has got a reply.
  all_replied :
      (s : Serving k) (fd : ℕ) (w' : k.World) (d' : RequestDispatcher)
      (h : Handled abi k fd s.io w' s.dispatcher d')
      → is_answered h.after ≡ true
      → (v : IsWaiting s h.uid h.before) → (i : ℕ) → i < fragment_count v.request.nbd_req
      → is_replied ((h.uid, (load_header h.read.head.0).fragment_uid) ∷ s.replied) h.uid i ≡ true
  unfolding is_replied
  all_replied s fd w' d' h all v i lt =
      let fragment = (load_header h.read.head.0).fragment_uid in
      let struck = (take_reply-IsKept abi h.before h.after fragment h.read.bytes h.read.taken).1 in
      ground (
        arith,
        ap (IntSet.contains i) struck,
        IntSet.contains-erase i fragment h.before.fragmentation_set,
        IntSet.none_of_is_empty h.after.fragmentation_set all i,
        v.waits i,
        lt,
      )

  -- Behind `IotHandle`.
  abbrev with_reply :
      (s : Serving k) (fd : ℕ) (w' : k.World) (d' : RequestDispatcher)
      → Handled abi k fd s.io w' s.dispatcher d'
      → Serving k
  with_reply s fd w' d' h = record s {
    dispatcher = d';
    replied = (h.uid, (load_header h.read.head.0).fragment_uid) ∷ s.replied;
    io = w';
  }

  other_entry :
      (s : Serving k) (fd : ℕ) (w' : k.World) (d' : RequestDispatcher)
      (h : Handled abi k fd s.io w' s.dispatcher d') (uid : ℕ) (host : RequestHost)
      → (h.uid == uid) ≡ false
      → IsWaiting s uid host
      → IsWaiting (with_reply s fd w' d' h) uid host
  unfolding is_replied
  other_entry s fd w' d' h uid host other v = record {
    own_uid = v.own_uid;
    request = v.request;
    was_asked = v.was_asked;
    waits = λ i. ground (arith, v.waits i, other);
    still = v.still;
  }

  reply-IsHistory :
      (s : Serving k) (fd : ℕ) (w' : k.World) (d' : RequestDispatcher)
      (h : Handled abi k fd s.io w' s.dispatcher d')
      → IsHistory s
      → IsHistory (with_reply s fd w' d' h)
  unfolding is_replied
  reply-IsHistory s fd w' d' h v = record {
    counter = h.counter ∙ v.counter;
    entries = λ uid host found.
        let here = sym (h.table uid) ∙ found in
        elim (Bool-cases (h.uid == uid)) [
          | inl own ↦
              let same : h.uid ≡ uid = ground (arith, own) in
              let more : is_answered h.after ≡ false = ground (arith, own, here) in
              let it : h.after ≡ host = ground (arith, own, here, more) in
              subst (λ u. IsWaiting (with_reply s fd w' d' h) u host) same
                (subst (IsWaiting (with_reply s fd w' d' h) h.uid) it
                  (replied_entry s fd w' d' h more before))
          | inr other ↦
              other_entry s fd w' d' h uid host other
                (v.entries uid host (ground (arith, other, here)))
        ];
    gone = λ uid m there missing i lt.
        let here = sym (h.table uid) ∙ missing in
        elim (Bool-cases (h.uid == uid)) [
          | inl own ↦
              let same : h.uid ≡ uid = ground (arith, own) in
              let all : is_answered h.after ≡ true = ground (arith, own, here) in
              let request : before.request ≡ m =
                cc (before.was_asked, ap (get_elem? s.asked) same, there) in
              let small : i < fragment_count before.request.nbd_req =
                subst (λ r. i < fragment_count r.nbd_req) (sym request) lt in
              subst (λ u. is_replied (with_reply s fd w' d' h).replied u i ≡ true) same
                (all_replied s fd w' d' h all before i small)
          | inr other ↦ ground (arith, other, v.gone uid m there (ground (arith, other, here)) i lt)
        ];
    early = λ uid i le.
        ground
          (arith, v.early uid i le, get_elem?-lt s.asked before.request h.uid before.was_asked);
  }
    where
      before : IsWaiting s h.uid h.before
      before = v.entries h.uid h.before h.entry

passed :
    {k : Kernel} (s : Serving k) (w' : k.World) (uid : ℕ) (host : RequestHost)
    → IsWaiting s uid host
    → IsWaiting (record s { io = w' }) uid host
passed s w' uid host v = record {
  own_uid = v.own_uid;
  request = v.request;
  was_asked = v.was_asked;
  waits = v.waits;
  still = v.still;
}

-- In every state that the dispatcher reaches from an empty table, by calls of both handlers in any order
-- while the world moves in any way, and with less than 2 ^ 32 requests: every entry stands under the number of its
-- request, which is its place among the requests that were read, and its host waits exactly for the fragments
-- to which no reply has come, and for one at least unless the request has none; a request that has no entry has got
-- a reply to each of its fragments; and no reply was taken that has come before its request.
pub Reach-IsHistory :
    (abi : NbdAbi) (k : Kernel) (malloced : ℕ → List ℕ) {io : k.World} {s : Serving k}
    → Reach abi k malloced io s
    → length s.asked < 2 ^ 32
    → IsHistory s
unfolding new_dispatcher Assoc.find is_replied
Reach-IsHistory abi k malloced start few = record {
  counter = refl;
  entries = λ uid host found. cc;
  gone = λ uid m there missing i lt. cc;
  early = λ uid i le. refl;
}
Reach-IsHistory abi k malloced (later {s} r (asks socket m w1 w' d' jobs got ran)) few =
    subst (λ d. IsHistory (record s { dispatcher = d; asked = s.asked ++ (m ∷ []); io = w' }))
      ((admitted abi k malloced s.dispatcher d' socket s.io w1 w' m jobs got ran).0)
      (request-IsHistory s socket m w' (omega (arith, few, length-append s.asked (m ∷ [])))
        (Reach-IsHistory abi k malloced r (omega (arith, few, length-append s.asked (m ∷ [])))))
Reach-IsHistory abi k malloced (later {s} r (answers fd uid fragment w' d' head ran)) few =
    let h = iot_handle-Handled abi k s.dispatcher d' fd s.io w' ran in
    let (own, at) =
      done_parts (sym (reply_head-Handled abi k fd s.io w' s.dispatcher d' h) ∙ head) in
    subst (λ l. IsHistory (record s { dispatcher = d'; replied = l ∷ s.replied; io = w' }))
      (λ i. (own i, at i))
      (reply-IsHistory abi k s fd w' d' h (Reach-IsHistory abi k malloced r few))
Reach-IsHistory abi k malloced (later {s} r (passes w')) few =
    let v = Reach-IsHistory abi k malloced r few in
    record {
      counter = v.counter;
      entries = λ uid host found. passed s w' uid host (v.entries uid host found);
      gone = v.gone;
      early = v.early;
    }
