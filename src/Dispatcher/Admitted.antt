-- ===== src/Dispatcher/Admitted.antt =====
-- What NbdRequestsHandle does to the table, and to the hosts that wait in it.
use private_distributed_clou.Prelude.{
  ℕ, ◌+◌, ◌<◌, ◌^◌, ◌≡◌, inl, inr, refl, ap, sym, ◌∙◌, some, List, [], ◌∷◌, ◌++◌, length,
  length-append, ◌%◌, ◌==◌, if◌then◌else◌, arith, ℕ_discrete, Bool-cases,
}
use mathlib.Core.Path.{subst}
use private_distributed_clou.Run.{Run, done, fault, running, ◌>>=◌, >>=-eq-done}
use private_distributed_clou.Assoc
use private_distributed_clou.IntSet
use private_distributed_clou.Net.{Kernel}
use private_distributed_clou.Nbd.{NbdAbi, NbdMessage, nbd_request_read}
use private_distributed_clou.Command.{SendMsgInfo}
use private_distributed_clou.Host.{RequestHost, create_host}
use private_distributed_clou.Host.Completion.{contains-create_host}
use private_distributed_clou.Dispatcher.{RequestDispatcher, admit, nbd_requests_handle}
use private_distributed_clou.Dispatcher.Serving.{
  Serving, IsWaiting, IsHistory, get_elem?-snoc, get_elem?-lt,
}

admit-find :
    (d : RequestDispatcher) (socket : ℕ → ℕ) (m : NbdMessage) (uid : ℕ)
    → Assoc.find ℕ_discrete uid (admit d socket m).0.active_requests ≡ (
        if d.next_uid == uid
        then some (create_host d.next_uid m).0
        else Assoc.find ℕ_discrete uid d.active_requests)
unfolding admit create_host
admit-find d socket m uid = ground (
  arith,
  Assoc.find-insert ℕ_discrete d.next_uid uid (create_host d.next_uid m).0 d.active_requests,
)

admit-next_uid :
    (d : RequestDispatcher) (socket : ℕ → ℕ) (m : NbdMessage)
    → (admit d socket m).0.next_uid ≡ (d.next_uid + 1) % 2 ^ 32
unfolding admit create_host
admit-next_uid d socket m = refl

-- Behind `NbdRequestsHandle` for the request `m`.
abbrev with_request : {k : Kernel} → Serving k → (ℕ → ℕ) → NbdMessage → k.World → Serving k
with_request s socket m w' = record s {
  dispatcher = (admit s.dispatcher socket m).0;
  asked = s.asked ++ (m ∷ []);
  io = w';
}

new_entry :
    {k : Kernel} (s : Serving k) (socket : ℕ → ℕ) (m : NbdMessage) (w' : k.World)
    → IsHistory s
    → IsWaiting
        (with_request s socket m w')
        s.dispatcher.next_uid
        (create_host s.dispatcher.next_uid m).0
unfolding create_host
new_entry s socket m w' v = record {
  own_uid = refl;
  request = m;
  was_asked = ground (arith, get_elem?-snoc s.asked m s.dispatcher.next_uid, v.counter);
  waits = λ i. ground (
    arith,
    contains-create_host s.dispatcher.next_uid m i,
    v.early s.dispatcher.next_uid i,
    v.counter,
  );
  still = λ none_left. ground (
    arith,
    contains-create_host s.dispatcher.next_uid m 0,
    IntSet.none_of_is_empty (create_host s.dispatcher.next_uid m).0.fragmentation_set none_left 0,
  );
}

old_entry :
    {k : Kernel} (s : Serving k) (socket : ℕ → ℕ) (m : NbdMessage) (w' : k.World) (uid : ℕ)
    (host : RequestHost)
    → IsWaiting s uid host
    → IsWaiting (with_request s socket m w') uid host
old_entry s socket m w' uid host v = record {
  own_uid = v.own_uid;
  request = v.request;
  was_asked =
      let lt = get_elem?-lt s.asked v.request uid v.was_asked in
      ground (arith, get_elem?-snoc s.asked m uid, v.was_asked, lt);
  waits = v.waits;
  still = v.still;
}

pub request-IsHistory :
    {k : Kernel} (s : Serving k) (socket : ℕ → ℕ) (m : NbdMessage) (w' : k.World)
    → length s.asked + 1 < 2 ^ 32
    → IsHistory s
    → IsHistory (with_request s socket m w')
request-IsHistory {k} s socket m w' room v = record {
  counter = omega (arith, admit-next_uid s.dispatcher socket m, length-snoc, v.counter, room);
  entries = λ uid host found. elim (Bool-cases (s.dispatcher.next_uid == uid)) [
    | inl new ↦
        let here = sym (admit-find s.dispatcher socket m uid) ∙ found in
        let same : uid ≡ s.dispatcher.next_uid = ground (arith, new) in
        let it : (create_host s.dispatcher.next_uid m).0 ≡ host = ground (arith, new, here) in
        subst (λ u. IsWaiting (with_request s socket m w') u host) (sym same)
          (subst (IsWaiting (with_request s socket m w') s.dispatcher.next_uid) it
            (new_entry s socket m w' v))
    | inr old ↦
        let here = sym (admit-find s.dispatcher socket m uid) ∙ found in
        old_entry s socket m w' uid host (v.entries uid host (ground (arith, old, here)))
  ];
  gone = λ uid m' there missing i lt.
      let here = sym (admit-find s.dispatcher socket m uid) ∙ missing in
      let before = get_elem?-snoc s.asked m uid in
      v.gone uid m' (ground (arith, there, before, here, v.counter)) (ground (arith, here)) i lt;
  early = λ uid i le. v.early uid i (omega (arith, le, length-snoc));
}
  where
    length-snoc : length (s.asked ++ (m ∷ [])) ≡ length s.asked + 1
    length-snoc = length-append s.asked (m ∷ [])

-- What `NbdRequestsHandle` makes of the table, and the jobs that it starts, when it has read the request `m`.
pub admitted :
    (abi : NbdAbi) (k : Kernel) (malloced : ℕ → List ℕ) (d d' : RequestDispatcher) (socket : ℕ → ℕ)
    (w w1 w' : k.World) (m : NbdMessage) (jobs : List SendMsgInfo)
    → nbd_request_read abi k malloced (socket 0) w ≡ done (m, w1)
    → nbd_requests_handle abi k malloced d socket w ≡ done (d', jobs, w')
    → ((admit d socket m).0 ≡ d') × ((admit d socket m).1 ≡ jobs)
unfolding nbd_requests_handle
admitted abi k malloced d d' socket w w1 w' m jobs got ran = (ap table_of both, ap jobs_of both)
  where
    table_of : Run (RequestDispatcher × List SendMsgInfo × k.World) → RequestDispatcher
    table_of r = elim r [ done x ↦ x.0 | fault ↦ d | running ↦ d ]

    jobs_of : Run (RequestDispatcher × List SendMsgInfo × k.World) → List SendMsgInfo
    jobs_of r = elim r [ done x ↦ x.1 | fault ↦ [] | running ↦ [] ]

    both :
        ◌≡◌ {A = Run (RequestDispatcher × List SendMsgInfo × k.World)}
          (done ((admit d socket m).0, (admit d socket m).1, w1))
          (done (d', jobs, w'))
    both =
        sym (ap (λ x. x >>= λ y. let (t, js) = admit d socket y.0 in done (t, js, y.1)) got) ∙ ran

-- It has read a request, when it returned.
pub request_read :
    (abi : NbdAbi) (k : Kernel) (malloced : ℕ → List ℕ) (d : RequestDispatcher) (socket : ℕ → ℕ)
    (w : k.World) {r : RequestDispatcher × List SendMsgInfo × k.World}
    → nbd_requests_handle abi k malloced d socket w ≡ done r
    → (m : NbdMessage) × (w1 : k.World) × (nbd_request_read abi k malloced (socket 0) w
        ≡ done (m, w1))
unfolding nbd_requests_handle
request_read abi k malloced d socket w e =
    let (x, got, _) =
      >>=-eq-done (nbd_request_read abi k malloced (socket 0) w)
        (λ y. let (t, js) = admit d socket y.0 in done (t, js, y.1)) e in
    (x.0, x.1, got)
