-- ===== src/Relay/Waiting.antt =====
-- atlas_ThreadPool.cpp: the requests in memory whose messages are still to be sent, and the tasks that read them.
use private_distributed_clou.Prelude.{
  ℕ, ◌+◌, ◌<◌, ◌≤◌, ◌≡◌, refl, ap, sym, ◌∙◌, true, false, Option, none, some, List, [], ◌∷◌, ◌++◌,
  length, length-append, arith, slice, ◌*◌, ℕ_discrete, ◌==◌, if◌then◌else◌,
}
use mathlib.Core.Path.{subst}
use private_distributed_clou.Run.{Run, done, fault, running, ◌>>=◌, >>=-eq-done, done_injective}
use private_distributed_clou.Assoc
use private_distributed_clou.Net.{Kernel, read_all}
use private_distributed_clou.Nbd.{NbdAbi, NbdMessage, nbd_request_read, nbd_request_done}
use private_distributed_clou.Host.Reply.{load32}
use private_distributed_clou.BtsQueue.{All, push, new_queue}
use private_distributed_clou.ThreadPool.{Task, async, run_task, task_less}
use private_distributed_clou.ThreadPool.Tally.{
  total, total-middle, total-top_pop, All-middle, All-top_pop,
}
use private_distributed_clou.ThreadPool.Moves.{Move, shifts, takes, ends, Works-Move}
use private_distributed_clou.ThreadPool.Workers.{Pool, new_pool, submit, finish_task}
use private_distributed_clou.Relay.{
  RelayMessage, Pending, convert_to_atlas, relay_receive, relay_answer, relay_iot_handle,
}
use private_distributed_clou.Relay.Pool.{
  SendCall, SendInfo, Memory, set_handed, gather_message, send_status, send_found, send_function,
  RelayPool, new_relay, request_in, reply_out, reply_address, pooled_nbd_handle, pooled_iot_handle,
  Reach, reads, answers, works, start, later,
}

-- A request is in memory and was not yet handed to `sendmsg`.
abbrev pub waiting : Memory → ℕ → ℕ
waiting mem address = elim (Assoc.find ℕ_discrete address mem.pending) [
  | none ↦ 0
  | some m ↦ if mem.handed address then 0 else 1
]

abbrev blank : NbdMessage
blank = record {
  nbd_req = record { req_type = 0; data_len = 0; offset = 0; data_buf = [] };
  nbd_sock = 0;
  reply = record { magic = 0; error = 0; handle = [] };
}

abbrev only_at : ℕ → Memory
only_at address = record { pending = (address, blank) ∷ []; handed = λ j. false; sent = [] }

abbrev handed_at : ℕ → ℕ × Run Memory → ℕ
handed_at address r = elim r.1 [
  | done mem ↦ if mem.handed address then 1 else 0
  | fault ↦ 0
  | running ↦ 0
]

-- 1 if a task, run where the only request is at `address`, hands that one to `sendmsg`, and else 0.
abbrev pub reads_at : ℕ → Task (Run Memory) → ℕ
reads_at address t = handed_at address (t.function (done (only_at address)))

module _ (abi : NbdAbi) (sendmsg : SendCall) where
  -- The task is a call of `SendMsgWrapper`.
  abbrev pub SendsOne : Task (Run Memory) → Type 0
  SendsOne t = (info : SendInfo) × (t.function ≡ send_function abi sendmsg info)

  send_function-only_at :
      (info : SendInfo) (address : ℕ)
      → handed_at address (send_function abi sendmsg info (done (only_at address)))
        ≡ (if info.req == address then 1 else 0)
  unfolding send_function send_found Assoc.find
  send_function-only_at info address = ground arith

  -- Where the request is in memory, its message is sent.
  pub send_runs :
      (info : SendInfo) (mem : Memory) (m : NbdMessage)
      → Assoc.find ℕ_discrete info.req mem.pending ≡ some m
      → send_function abi sendmsg info (done mem) ≡ (
        send_status sendmsg (gather_message abi info m.nbd_req),
        done (record mem {
          handed = set_handed mem.handed info.req true;
          sent = mem.sent ++ (gather_message abi info m.nbd_req ∷ []);
        }),
      )
  unfolding send_function send_found
  send_runs info mem m found = ap (λ o. send_found abi sendmsg info o mem) found

  -- Every request that waits has one task, and no other request has one; a task that has ended has sent a message.
  pub record IsSafe (p : Pool (Run Memory)) : Type 0 where
    pub mem : Memory
    pub world : p.world ≡ done mem
    pub queued : All SendsOne p.queue.items
    pub with_workers : All SendsOne p.running
    pub balance :
        (address : ℕ)
        → total (reads_at address) p.queue.items + total (reads_at address) p.running
          ≡ waiting mem address
    pub each : length mem.sent ≡ length p.finished

  waiting-found :
      (mem : Memory) (address : ℕ)
      → 0 < waiting mem address
      → (m : NbdMessage) × (Assoc.find ℕ_discrete address mem.pending ≡ some m)
  waiting-found mem address = by_entry (Assoc.find ℕ_discrete address mem.pending)
    where
      by_entry :
          (o : Option NbdMessage)
          → 0 < (elim o [ none ↦ 0 | some m ↦ if mem.handed address then 0 else 1 ])
          → (m : NbdMessage) × (o ≡ some m)
      by_entry none lt = absurd (omega (arith, lt))
      by_entry (some m) lt = (m, refl)

  waiting-le : (mem : Memory) (address : ℕ) → waiting mem address ≤ 1
  waiting-le mem address = ground arith

  waiting-handed :
      (mem : Memory) (j address : ℕ) (sent : List RelayMessage)
      → waiting (record mem { handed = set_handed mem.handed j true; sent = sent }) address
        ≡ (if j == address then 0 else waiting mem address)
  waiting-handed mem j address sent = ground arith

  -- The request of a task that a worker runs is in memory.
  pub running_found :
      {p : Pool (Run Memory)} (v : IsSafe p) (before : List (Task (Run Memory)))
      (t : Task (Run Memory)) (after : List (Task (Run Memory))) (info : SendInfo)
      → p.running ≡ before ++ (t ∷ after)
      → t.function ≡ send_function abi sendmsg info
      → (m : NbdMessage) × (Assoc.find ℕ_discrete info.req v.mem.pending ≡ some m)
  running_found {p} v before t after info e own =
      let here =
        ap (λ f. handed_at info.req (f (done (only_at info.req)))) own
        ∙ send_function-only_at info info.req in
      waiting-found v.mem info.req (
        ground (
          arith,
          here,
          v.balance info.req,
          ap (total (reads_at info.req)) e,
          total-middle (reads_at info.req) before t after,
        ))

  pub Move-IsSafe : {p q : Pool (Run Memory)} → Move p q → IsSafe p → IsSafe q
  unfolding finish_task run_task
  Move-IsSafe {p} (shifts q idle e moved) v = record {
    mem = v.mem;
    world = v.world;
    queued = subst (All SendsOne) (sym e) v.queued;
    with_workers = v.with_workers;
    balance = λ a. omega (arith, v.balance a, ap (total (reads_at a)) e);
    each = v.each;
  }
  Move-IsSafe {p} (takes x xs q idle e e' moved) v =
      let all = subst (All SendsOne) e v.queued in
      let parts = All-top_pop task_less SendsOne x xs all.0 all.1 in
      record {
        mem = v.mem;
        world = v.world;
        queued = subst (All SendsOne) (sym e') parts.1;
        with_workers = (parts.0, v.with_workers);
        balance = λ a. omega (
          arith,
          v.balance a,
          ap (total (reads_at a)) e,
          ap (total (reads_at a)) e',
          total-top_pop task_less (reads_at a) x xs,
        );
        each = v.each;
      }
  Move-IsSafe {p} (ends before t after e) v =
      let ((info, own), others) =
        All-middle SendsOne before t after (subst (All SendsOne) e v.with_workers) in
      let (m, found) = running_found v before t after info e own in
      record {
        mem = record (v.mem) {
          handed = set_handed v.mem.handed info.req true;
          sent = v.mem.sent ++ (gather_message abi info m.nbd_req ∷ []);
        };
        world =
            ap (λ w. (t.function w).1) v.world
            ∙ ap (λ f. (f (done v.mem)).1) own
            ∙ ap (λ r. r.1) (send_runs info v.mem m found);
        queued = v.queued;
        with_workers = others;
        balance = λ a. ground (
          arith,
          v.balance a,
          ap (total (reads_at a)) e,
          total-middle (reads_at a) before t after,
          ap (λ f. handed_at a (f (done (only_at a)))) own ∙ send_function-only_at info a,
          waiting-handed v.mem info.req a (v.mem.sent ++ (gather_message abi info m.nbd_req ∷ [])),
          waiting-le v.mem a,
        );
        each =
            omega
              (arith, v.each, length-append v.mem.sent (gather_message abi info m.nbd_req ∷ []));
      }

  module _ (k : Kernel) (malloced : ℕ → List ℕ) (socfd : ℕ → ℕ) where
    -- A reply takes the request that it names out, and leaves the others.
    answer_erases :
        (fd address : ℕ) (pending : Pending) (w : k.World) {r : Pending × k.World}
        → relay_answer abi k fd address pending w ≡ done r
        → Assoc.erase ℕ_discrete address pending ≡ r.0
    unfolding relay_answer
    answer_erases fd address pending w {r} e = by_entry (Assoc.find ℕ_discrete address pending) e
      where
        by_entry :
            (o : Option NbdMessage)
            → ◌≡◌ {A = Run (Pending × k.World)}
                (elim o [
                  | none ↦ fault
                  | some m ↦ relay_receive abi k fd m w >>= λ x.
                      nbd_request_done abi k x.0 0 x.1 >>= λ w'.
                      done (Assoc.erase ℕ_discrete address pending, w')
                ])
                (done r)
            → Assoc.erase ℕ_discrete address pending ≡ r.0
        by_entry none e' = cc
        by_entry (some m) e' =
            let (x, _, e1) = >>=-eq-done (relay_receive abi k fd m w) _ e' in
            let (w', _, e2) = >>=-eq-done (nbd_request_done abi k x.0 0 x.1) _ e1 in
            ap (λ y. y.0) (done_injective e2)

    -- What `IotHandle` takes out is what the reply names.
    pub replied_out :
        (address : ℕ) (mem : Memory) (s t : RelayPool k)
        → s.tp.world ≡ done mem
        → reply_address abi k malloced sendmsg socfd s ≡ done address
        → pooled_iot_handle abi k malloced sendmsg socfd s ≡ done t
        → (io : k.World) × (reply_out abi k malloced sendmsg socfd
              (Assoc.erase ℕ_discrete address mem.pending, io)
              mem
              s
            ≡ t)
    unfolding pooled_iot_handle reply_address relay_iot_handle
    replied_out address mem s t known named e =
        let (mem', known', e0) = >>=-eq-done s.tp.world _ e in
        let (r, ran, e1) = >>=-eq-done (relay_iot_handle abi k socfd mem'.pending s.io) _ e0 in
        let (head, got, e2) = >>=-eq-done (read_all k (socfd 1) 24 s.io) _ ran in
        let (head', got', e3) = >>=-eq-done (read_all k (socfd 1) 24 s.io) _ named in
        let same : mem ≡ mem' = done_injective (sym known ∙ known') in
        let head_same : head ≡ head' = done_injective (sym got ∙ got') in
        let read : load32 head.0 + 4294967296 * load32 (slice 4 4 head.0) ≡ address =
          ap (λ h. load32 h.0 + 4294967296 * load32 (slice 4 4 h.0)) head_same
          ∙ done_injective e3 in
        let erased = answer_erases (socfd 1) _ mem'.pending head.1 e2 in
        (
          r.1,
          ap
                (λ x.
                  reply_out abi k malloced sendmsg socfd
                    (Assoc.erase ℕ_discrete address x.pending, r.1) x s)
                same
              ∙ ap
                  (λ a.
                    reply_out abi k malloced sendmsg socfd
                      (Assoc.erase ℕ_discrete a mem'.pending, r.1) mem' s)
                  (sym read)
              ∙ ap (λ p. reply_out abi k malloced sendmsg socfd (p, r.1) mem' s) erased
              ∙ done_injective e1,
        )

    -- What `NbdHandle` does.
    pub read_in :
        (address task : ℕ) (mem : Memory) (s t : RelayPool k)
        → s.tp.world ≡ done mem
        → pooled_nbd_handle abi k malloced sendmsg socfd address task s ≡ done t
        → (r : NbdMessage × k.World) × (request_in abi k malloced sendmsg socfd address task r mem s
            ≡ t)
    unfolding pooled_nbd_handle
    read_in address task mem s t known e =
        let (mem', known', e0) = >>=-eq-done s.tp.world _ e in
        let (r, ran, e1) = >>=-eq-done (nbd_request_read abi k malloced (socfd 0) s.io) _ e0 in
        (
          r,
          ap (λ x. request_in abi k malloced sendmsg socfd address task r x s)
                (done_injective (sym known ∙ known'))
              ∙ done_injective e1,
        )

    request_in-IsSafe :
        (address task : ℕ) (r : NbdMessage × k.World) (mem : Memory) (s : RelayPool k)
        → s.tp.world ≡ done mem
        → Assoc.find ℕ_discrete address mem.pending ≡ none
        → IsSafe s.tp
        → IsSafe (request_in abi k malloced sendmsg socfd address task r mem s).tp
    unfolding request_in submit async push
    request_in-IsSafe address task r mem s known free v =
        let info : SendInfo = record {
          sockfd = socfd 1;
          header = convert_to_atlas address r.0.nbd_req;
          req = address;
        } in
        let same : v.mem ≡ mem = done_injective (sym v.world ∙ known) in
        record {
          mem = record mem {
            pending = Assoc.insert ℕ_discrete address r.0 mem.pending;
            handed = set_handed mem.handed address false;
          };
          world = refl;
          queued = ((info, refl), v.queued);
          with_workers = v.with_workers;
          balance = λ a. ground (
            arith,
            v.balance a,
            ap (λ x. waiting x a) same,
            free,
            send_function-only_at info a,
            Assoc.find-insert ℕ_discrete address a r.0 mem.pending,
          );
          each = omega (arith, v.each, ap (λ x. length x.sent) same);
        }

    reply_out-IsSafe :
        (address : ℕ) (mem : Memory) (io : k.World) (s : RelayPool k)
        → s.tp.world ≡ done mem
        → mem.handed address ≡ true
        → IsSafe s.tp
        → IsSafe
            (reply_out abi k malloced sendmsg socfd
              (Assoc.erase ℕ_discrete address mem.pending, io)
              mem
              s).tp
    unfolding reply_out
    reply_out-IsSafe address mem io s known handed v =
        let same : v.mem ≡ mem = done_injective (sym v.world ∙ known) in
        record {
          mem = record mem { pending = Assoc.erase ℕ_discrete address mem.pending };
          world = refl;
          queued = v.queued;
          with_workers = v.with_workers;
          balance = λ a. ground (
            arith,
            v.balance a,
            ap (λ x. waiting x a) same,
            handed,
            Assoc.find-erase ℕ_discrete address a mem.pending,
          );
          each = omega (arith, v.each, ap (λ x. length x.sent) same);
        }

    pub Reach-IsSafe :
        {num_of_threads : ℕ} {io : k.World} {s : RelayPool k}
        → Reach abi k malloced sendmsg socfd num_of_threads io s
        → IsSafe s.tp
    unfolding new_relay new_pool new_queue Assoc.find
    Reach-IsSafe start = record {
      mem = record { pending = []; handed = λ j. false; sent = [] };
      world = refl;
      queued = tt;
      with_workers = tt;
      balance = λ a. refl;
      each = refl;
    }
    Reach-IsSafe (later {s} r (reads address task mem t known free e)) =
        let (x, same) = read_in address task mem s t known e in
        subst (λ u. IsSafe u.tp) same
          (request_in-IsSafe address task x mem s known free (Reach-IsSafe r))
    Reach-IsSafe (later {s} r (answers address mem t known named handed e)) =
        let (io, same) = replied_out address mem s t known named e in
        subst (λ u. IsSafe u.tp) same
          (reply_out-IsSafe address mem io s known handed (Reach-IsSafe r))
    Reach-IsSafe (later r (works tp move)) = Move-IsSafe (Works-Move move) (Reach-IsSafe r)
