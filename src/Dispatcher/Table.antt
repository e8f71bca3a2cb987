-- ===== src/Dispatcher/Table.antt =====
-- What the handlers do to the table of active requests.
use private_distributed_clou.Prelude.{
  ℕ, ◌+◌, ◌^◌, ◌<◌, ◌≡◌, inl, inr, refl, ap, sym, ◌∙◌, false, Option, none, some, List, arith, ◌==◌,
  if◌then◌else◌, ℕ_discrete, Option-cases,
}
use private_distributed_clou.Run.{Run, done, fault, ◌>>=◌, >>=-eq-done, done_parts}
use private_distributed_clou.Assoc
use private_distributed_clou.Net.{Kernel, recv_all}
use private_distributed_clou.Nbd.{NbdAbi, NbdMessage}
use private_distributed_clou.Command.{header_size}
use private_distributed_clou.Host.{RequestHost, create_host}
use private_distributed_clou.Host.Reply.{
  load_header, peek, read_reply, receive_data, close_reply, take_reply, is_answered,
}
use private_distributed_clou.Dispatcher.{RequestDispatcher, admit, settle, iot_handle}

-- Every entry stands under its own number, and the next number is above all of them.
record IsKeyed (d : RequestDispatcher) : Type 0 where
  pub keyed :
      (j : ℕ) (host : RequestHost)
      → Assoc.find ℕ_discrete j d.active_requests ≡ some host
      → (host.req_uid ≡ j) × (j < d.next_uid)

close_reply_code :
    (abi : NbdAbi) (k : Kernel) (o : Option RequestHost) (w w' : k.World) (after : RequestHost)
    (code : ℕ)
    → close_reply abi k o w ≡ done (after, code, w')
    → (o ≡ some after) × (code ≡ (if is_answered after then 1 else 0))
unfolding close_reply
close_reply_code abi k o w w' after code e = ground arith

take_reply-uid :
    (abi : NbdAbi) (host after : RequestHost) (fragment : ℕ) (bytes : List ℕ)
    → take_reply abi host fragment bytes ≡ some after
    → after.req_uid ≡ host.req_uid
unfolding take_reply
take_reply-uid abi host after fragment bytes e = ground arith

-- What `ReadReaply` did, when it returned: it took the reply that it received, and the code says whether the host
-- still waits for a fragment.
pub record Read (abi : NbdAbi) (k : Kernel) (fd : ℕ) (w : k.World) (before after : RequestHost)
    (code : ℕ) : Type 0 where
  pub head : List ℕ × k.World
  pub got : recv_all k false fd header_size w ≡ done head
  pub bytes : List ℕ
  pub taken : take_reply abi before (load_header head.0).fragment_uid bytes ≡ some after
  pub coded : code ≡ (if is_answered after then 1 else 0)

read_reply-Read :
    (abi : NbdAbi) (k : Kernel) (host after : RequestHost) (fd code : ℕ) (w w' : k.World)
    → read_reply abi k host fd w ≡ done (after, code, w')
    → Read abi k fd w host after code
unfolding read_reply
read_reply-Read abi k host after fd code w w' e =
    let (head, got, e1) = >>=-eq-done (recv_all k false fd header_size w) with_header e in
    let fragment = (load_header head.0).fragment_uid in
    let (body, _, e2) = >>=-eq-done (receive_data abi k host fd head.1) (with_body fragment) e1 in
    let (taken, coded) =
      close_reply_code abi k (take_reply abi host fragment body.0) body.1 w' after code e2 in
    record { head = head; got = got; bytes = body.0; taken = taken; coded = coded }
  where
    with_body : ℕ → List ℕ × k.World → Run (RequestHost × ℕ × k.World)
    with_body fragment body = close_reply abi k (take_reply abi host fragment body.0) body.1

    with_header : List ℕ × k.World → Run (RequestHost × ℕ × k.World)
    with_header head =
        receive_data abi k host fd head.1 >>= with_body (load_header head.0).fragment_uid

-- What `IotHandle` did, when it returned: the number `uid` that it peeked at has an entry, the reply was
-- for that entry, and the new table differs there alone.
pub record Handled (abi : NbdAbi) (k : Kernel) (fd : ℕ) (w w' : k.World) (d d' : RequestDispatcher)
    : Type 0 where
  pub uid : ℕ
  pub peeked : k.World
  pub before : RequestHost
  pub after : RequestHost
  pub code : ℕ
  pub seen : peek k fd w ≡ done (uid, peeked)
  pub entry : Assoc.find ℕ_discrete uid d.active_requests ≡ some before
  pub read : Read abi k fd peeked before after code
  pub same_uid : after.req_uid ≡ before.req_uid
  pub table :
      (j : ℕ)
      → Assoc.find ℕ_discrete j d'.active_requests ≡ (
          if uid == j
          then (if is_answered after then none else some after)
          else Assoc.find ℕ_discrete j d.active_requests)
  pub counter : d'.next_uid ≡ d.next_uid

settle-find :
    (d : RequestDispatcher) (uid code j : ℕ) (host : RequestHost)
    → Assoc.find ℕ_discrete j (settle d uid host code).active_requests ≡ (
        if uid == j
        then (if code == 1 then none else some host)
        else Assoc.find ℕ_discrete j d.active_requests)
unfolding settle
settle-find d uid code j host = ground (
  arith,
  Assoc.find-insert ℕ_discrete uid j host d.active_requests,
  Assoc.find-erase ℕ_discrete uid j d.active_requests,
)

settle-next_uid :
    (d : RequestDispatcher) (uid code : ℕ) (host : RequestHost)
    → (settle d uid host code).next_uid ≡ d.next_uid
unfolding settle
settle-next_uid d uid code host = refl

answered_code :
    (uid code j : ℕ) (host : RequestHost) (o : Option RequestHost)
    → code ≡ (if is_answered host then 1 else 0)
    → (if uid == j then (if code == 1 then none else some host) else o)
      ≡ (if uid == j then (if is_answered host then none else some host) else o)
answered_code uid code j host o e = ground arith

-- Whenever `IotHandle` returns, it has handled one reply to the request that the reply names: the entry
-- of this request is removed exactly if the reply was the last one it waited for, and is else the host
-- after the reply; every other entry, and the number of the next request, are as before.
pub iot_handle-Handled :
    (abi : NbdAbi) (k : Kernel) (d d' : RequestDispatcher) (fd : ℕ) (w w' : k.World)
    → iot_handle abi k d fd w ≡ done (d', w')
    → Handled abi k fd w w' d d'
unfolding iot_handle
iot_handle-Handled abi k d d' fd w w' e =
    let (p, seen, e1) = >>=-eq-done (peek k fd w) with_uid e in
    elim (Option-cases (Assoc.find ℕ_discrete p.0 d.active_requests)) [
      | inl missing ↦ absurd (not_missing p missing e1)
      | inr (host, found) ↦ replied_to p host seen found (ap (entry_of p) (sym found) ∙ e1)
    ]
  where
    entry_of : ℕ × k.World → Option RequestHost → Run (RequestDispatcher × k.World)
    entry_of p o = elim o [
      | none ↦ fault
      | some host ↦ read_reply abi k host fd p.1 >>= λ r. done (settle d p.0 r.0 r.1, r.2)
    ]

    with_uid : ℕ × k.World → Run (RequestDispatcher × k.World)
    with_uid p = entry_of p (Assoc.find ℕ_discrete p.0 d.active_requests)

    not_missing :
        (p : ℕ × k.World)
        → Assoc.find ℕ_discrete p.0 d.active_requests ≡ none
        → with_uid p ≡ done (d', w')
        → ⊥
    not_missing p missing e1 = cc (ap (entry_of p) missing)

    replied_to :
        (p : ℕ × k.World) (host : RequestHost)
        → peek k fd w ≡ done p
        → Assoc.find ℕ_discrete p.0 d.active_requests ≡ some host
        → entry_of p (some host) ≡ done (d', w')
        → Handled abi k fd w w' d d'
    replied_to p host seen found e1 =
        let (r, ran, e2) =
          >>=-eq-done (read_reply abi k host fd p.1) (λ r. done (settle d p.0 r.0 r.1, r.2)) e1 in
        let (tabled, world) = done_parts e2 in
        let replied : read_reply abi k host fd p.1 ≡ done (r.0, r.1, w') =
          ran ∙ ap (λ x. done (r.0, r.1, x)) world in
        let read = read_reply-Read abi k host r.0 fd r.1 p.1 w' replied in
        record {
          uid = p.0;
          peeked = p.1;
          before = host;
          after = r.0;
          code = r.1;
          seen = seen;
          entry = found;
          read = read;
          same_uid = take_reply-uid abi host r.0 _ read.bytes read.taken;
          table = λ j.
              ap (λ t. Assoc.find ℕ_discrete j t.active_requests) (sym tabled)
              ∙ settle-find d p.0 r.1 j r.0
              ∙ answered_code p.0 r.1 j r.0 _ read.coded;
          counter = sym (ap (λ t. t.next_uid) tabled) ∙ settle-next_uid d p.0 r.1 r.0;
        }

-- A reply whose number is not in the table makes `IotHandle` call through a null pointer.
pub iot_handle-unknown :
    (abi : NbdAbi) (k : Kernel) (d : RequestDispatcher) (fd uid : ℕ) (w w1 : k.World)
    → peek k fd w ≡ done (uid, w1)
    → Assoc.find ℕ_discrete uid d.active_requests ≡ none
    → iot_handle abi k d fd w ≡ fault
unfolding iot_handle
iot_handle-unknown abi k d fd uid w w1 seen missing = rw seen (ground arith)

-- Admitting a request, while the 32-bit counter has not wrapped, keeps the table keyed, gives the request
-- the number of the counter, which no other entry has, and changes no other entry.
admit-IsKeyed :
    (d : RequestDispatcher) (socket : ℕ → ℕ) (m : NbdMessage)
    → d.next_uid + 1 < 2 ^ 32
    → IsKeyed d
    → IsKeyed (admit d socket m).0
      × (Assoc.find ℕ_discrete d.next_uid d.active_requests ≡ none)
      × ((j : ℕ)
          → Assoc.find ℕ_discrete j (admit d socket m).0.active_requests ≡ (
              if d.next_uid == j
              then some (create_host d.next_uid m).0
              else Assoc.find ℕ_discrete j d.active_requests))
unfolding admit create_host
admit-IsKeyed d socket m room v = (
  record {
    keyed = λ j host e. ground (
      arith,
      v.keyed j host,
      Assoc.find-insert ℕ_discrete d.next_uid j (create_host d.next_uid m).0 d.active_requests,
    );
  },
  unused,
  λ j. ground (
    arith,
    Assoc.find-insert ℕ_discrete d.next_uid j (create_host d.next_uid m).0 d.active_requests,
  ),
)
  where
    unused : Assoc.find ℕ_discrete d.next_uid d.active_requests ≡ none
    unused = elim (Option-cases (Assoc.find ℕ_discrete d.next_uid d.active_requests)) [
      | inl none_there ↦ none_there
      | inr (host, found) ↦ absurd (omega (arith, v.keyed d.next_uid host found))
    ]

-- `IotHandle` keeps the table keyed, on whatever reply it returns.
iot_handle-IsKeyed :
    (abi : NbdAbi) (k : Kernel) (d d' : RequestDispatcher) (fd : ℕ) (w w' : k.World)
    → iot_handle abi k d fd w ≡ done (d', w')
    → IsKeyed d
    → IsKeyed d'
iot_handle-IsKeyed abi k d d' fd w w' e v = record {
  keyed = λ j host found.
      ground
        (arith, h.table j, h.same_uid, h.counter, h.entry, v.keyed j host, v.keyed h.uid h.before);
}
  where
    h : Handled abi k fd w w' d d'
    h = iot_handle-Handled abi k d d' fd w w' e
