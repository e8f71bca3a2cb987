-- ===== src/ThreadPool/Logs.antt =====
-- A pool whose tasks hand messages to the system, in every interleaving. The world is the list of the messages, in
-- order, or what a task that did not return has made of it.
use private_distributed_clou.Prelude.{
  ℕ, ◌+◌, ◌≡◌, refl, ap, sym, ◌∙◌, Bool, List, [], ◌∷◌, ◌++◌, arith,
}
use mathlib.Core.List.{append_assoc, append-nil}
use mathlib.Core.Path.{subst}
use private_distributed_clou.Run.{Run, done, fault, running}
use private_distributed_clou.BtsQueue.{All, push, new_queue}
use private_distributed_clou.ThreadPool.{Task, task_less, async, bad_apple, run_task}
use private_distributed_clou.ThreadPool.Tally.{
  tally, total, tally-append, total-middle, total-top_pop, All-middle, All-top_pop, All-append,
  All-snoc,
}
use private_distributed_clou.ThreadPool.Moves.{Move, shifts, takes, ends, Works-Move}
use private_distributed_clou.ThreadPool.Workers.{
  Pool, handed_in, new_pool, submit, finish_task, Reach, submits, shuts_down, works, start, later,
}

module _ {M : Type 0} where
  -- What a function hands over, when nothing was before.
  abbrev pub messages_of : (Run (List M) → ℕ × Run (List M)) → List M
  messages_of func = elim (func (done [])).1 [ done ms ↦ ms | fault ↦ [] | running ↦ [] ]

  unfoldable pub all_messages : List (Run (List M) → ℕ × Run (List M)) → List M
  all_messages [] = []
  all_messages (func ∷ funcs) = messages_of func ++ all_messages funcs

  pub all_messages-append :
      (fs gs : List (Run (List M) → ℕ × Run (List M)))
      → all_messages (fs ++ gs) ≡ all_messages fs ++ all_messages gs
  unfolding all_messages
  all_messages-append [] gs = refl
  all_messages-append (f ∷ fs) gs =
      ap (◌++◌ (messages_of f)) (all_messages-append fs gs)
      ∙ sym (append_assoc (messages_of f) (all_messages fs) (all_messages gs))

  all_messages-snoc :
      (q : M → Bool) (funcs : List (Run (List M) → ℕ × Run (List M)))
      (func : Run (List M) → ℕ × Run (List M))
      → tally q (all_messages (funcs ++ (func ∷ [])))
        ≡ tally q (all_messages funcs) + tally q (messages_of func)
  unfolding all_messages
  all_messages-snoc q [] func = omega (arith, tally-append q (messages_of func) [])
  all_messages-snoc q (f ∷ funcs) func = omega (
    arith,
    all_messages-snoc q funcs func,
    tally-append q (messages_of f) (all_messages (funcs ++ (func ∷ []))),
    tally-append q (messages_of f) (all_messages funcs),
  )

  -- The weight of a task for a property of messages.
  abbrev pub weight : (M → Bool) → Task (Run (List M)) → ℕ
  weight q t = tally q (messages_of t.function)

module _ {M : Type 0} (P : M → Type 0) where
  -- It returns, and hands over its messages, all with the property, behind those that were there.
  abbrev pub Appends : (Run (List M) → ℕ × Run (List M)) → Type 0
  Appends func =
      ((sent : List M) → (func (done sent)).1 ≡ done (sent ++ messages_of func))
      × All P (messages_of func)

  abbrev pub TaskAppends : Task (Run (List M)) → Type 0
  TaskAppends t = Appends t.function

  pub record IsLogged (first : List M) (funcs : List (Run (List M) → ℕ × Run (List M)))
      (p : Pool (Run (List M))) : Type 0 where
    pub sent : List M
    pub world : p.world ≡ done sent
    pub only : All P sent
    pub queued : All TaskAppends p.queue.items
    pub with_workers : All TaskAppends p.running
    pub balance :
        (q : M → Bool)
        → tally q first + tally q (all_messages funcs)
          ≡ tally q sent + total (weight q) p.queue.items + total (weight q) p.running

  submit-IsLogged :
      (first : List M) (funcs : List (Run (List M) → ℕ × Run (List M))) (address : ℕ)
      (func : Run (List M) → ℕ × Run (List M)) (p : Pool (Run (List M)))
      → Appends func
      → IsLogged first funcs p
      → IsLogged first (funcs ++ (func ∷ [])) (submit address func p)
  unfolding submit async push
  submit-IsLogged first funcs address func p appends v = record {
    sent = v.sent;
    world = v.world;
    only = v.only;
    queued = (appends, v.queued);
    with_workers = v.with_workers;
    balance = λ q. omega (arith, v.balance q, all_messages-snoc q funcs func);
  }

  -- A task of `ShutDown`.
  apple-IsLogged :
      (first : List M) (funcs : List (Run (List M) → ℕ × Run (List M))) (address : ℕ)
      (p : Pool (Run (List M)))
      → IsLogged first funcs p
      → IsLogged first funcs (submit address (bad_apple address).function p)
  unfolding submit async push bad_apple
  apple-IsLogged first funcs address p v = record {
    sent = v.sent;
    world = v.world;
    only = v.only;
    queued = (((λ sent. ap done (sym (append-nil sent))), tt), v.queued);
    with_workers = v.with_workers;
    balance = λ q. omega (arith, v.balance q);
  }

  Move-IsLogged :
      {p q : Pool (Run (List M))} (first : List M) (funcs : List (Run (List M) → ℕ × Run (List M)))
      → Move p q
      → IsLogged first funcs p
      → IsLogged first funcs q
  unfolding finish_task run_task
  Move-IsLogged {p} first funcs (shifts q idle e moved) v = record {
    sent = v.sent;
    world = v.world;
    only = v.only;
    queued = subst (All TaskAppends) (sym e) v.queued;
    with_workers = v.with_workers;
    balance = λ r. omega (arith, v.balance r, ap (total (weight r)) e);
  }
  Move-IsLogged {p} first funcs (takes x xs q idle e e' moved) v =
      let all = subst (All TaskAppends) e v.queued in
      let parts = All-top_pop task_less TaskAppends x xs all.0 all.1 in
      record {
        sent = v.sent;
        world = v.world;
        only = v.only;
        queued = subst (All TaskAppends) (sym e') parts.1;
        with_workers = (parts.0, v.with_workers);
        balance = λ r. omega (
          arith,
          v.balance r,
          total-top_pop task_less (weight r) x xs,
          ap (total (weight r)) e,
          ap (total (weight r)) e',
        );
      }
  Move-IsLogged {p} first funcs (ends before t after e) v =
      let parts =
        All-middle TaskAppends before t after (subst (All TaskAppends) e v.with_workers) in
      record {
        sent = v.sent ++ messages_of t.function;
        world = ap (λ w. (t.function w).1) v.world ∙ parts.0.0 v.sent;
        only = All-append P v.sent (messages_of t.function) v.only parts.0.1;
        queued = v.queued;
        with_workers = parts.1;
        balance = λ r. omega (
          arith,
          v.balance r,
          ap (total (weight r)) e,
          total-middle (weight r) before t after,
          tally-append r v.sent (messages_of t.function),
        );
      }

  -- In every state that any interleaving of workers and clients reaches, where each function that was handed in
  -- returns: nothing has faulted, and the messages of the functions handed in are those that were handed over, those
  -- of the tasks in the queue, and those of the tasks with a worker, each as often.
  pub Reach-IsLogged :
      {apple : ℕ → Bool} {num_of_threads : ℕ} {first : List M} {p : Pool (Run (List M))}
      → All P first
      → (r : Reach apple num_of_threads (done first) p) → All Appends (handed_in r)
      → IsLogged first (handed_in r) p
  unfolding handed_in all_messages new_pool new_queue
  Reach-IsLogged {first = first} here start all = record {
    sent = first;
    world = refl;
    only = here;
    queued = tt;
    with_workers = tt;
    balance = λ q. omega arith;
  }
  Reach-IsLogged {first = first} here (later r (submits address func e)) all =
      let parts = All-snoc Appends (handed_in r) func all in
      submit-IsLogged first (handed_in r) address func _ parts.1 (Reach-IsLogged here r parts.0)
  Reach-IsLogged {first = first} here (later r (shuts_down address e)) all =
      apple-IsLogged first (handed_in r) address _ (Reach-IsLogged here r all)
  Reach-IsLogged {first = first} here (later r (works move)) all =
      Move-IsLogged first (handed_in r) (Works-Move move) (Reach-IsLogged here r all)
