-- ===== src/ThreadPool/Moves.antt =====
-- The three kinds of step that the workers of the pool take: a task is taken or ended, or a worker goes from one
-- place without a task to another.
use private_distributed_clou.Prelude.{ℕ, ◌+◌, ◌-◌, ◌<◌, ◌≡◌, refl, sym, List, [], ◌∷◌, ◌++◌, arith}
use mathlib.Core.Path.{subst}
use private_distributed_clou.BtsQueue
use private_distributed_clou.BtsQueue.{BtsQueue, top_pop, take_item}
use private_distributed_clou.ThreadPool.{Task, task_less}
use private_distributed_clou.ThreadPool.Workers.{
  Pool, start_task, call_dequeue, retry_dequeue, finish_task, Works, notifies, dequeues, retries,
  spurious, finishes,
}

module _ {W : Type 0} where
  pub data Move (p : Pool W) : Pool W → Type 0 where
    shifts :
        (q : BtsQueue (Task W)) (idle : ℕ)
        → q.items ≡ p.queue.items
        → idle + q.asleep + q.woken ≡ p.idle + p.queue.asleep + p.queue.woken
        → Move p (record p { queue = q; idle = idle })
    takes :
        (x : Task W) (xs : List (Task W)) (q : BtsQueue (Task W)) (idle : ℕ)
        → p.queue.items ≡ x ∷ xs
        → q.items ≡ (top_pop task_less x xs).1
        → idle + q.asleep + q.woken + 1 ≡ p.idle + p.queue.asleep + p.queue.woken
        → Move p
            (record p { queue = q; running = (top_pop task_less x xs).0 ∷ p.running; idle = idle })
    ends :
        (before : List (Task W)) (t : Task W) (after : List (Task W))
        → p.running ≡ before ++ (t ∷ after)
        → Move p (finish_task t (before ++ after) p)

  call_dequeue-Move : (p : Pool W) → 0 < p.idle → Move p (call_dequeue p)
  unfolding call_dequeue start_task BtsQueue.dequeue take_item
  call_dequeue-Move p some_idle = by_items p.queue.items refl
    where
      by_items : (items : List (Task W)) → p.queue.items ≡ items → Move p (call_dequeue p)
      by_items [] e =
          let sleeps : call_dequeue p ≡ record p {
            queue = record (p.queue) { asleep = p.queue.asleep + 1 };
            idle = p.idle - 1;
          } =
            ground (arith, e) in
          subst (Move p) (sym sleeps) (shifts _ (p.idle - 1) refl (omega arith))
      by_items (x ∷ xs) e =
          let taken : call_dequeue p ≡ record p {
            queue = record (p.queue) { items = (top_pop task_less x xs).1 };
            running = (top_pop task_less x xs).0 ∷ p.running;
            idle = p.idle - 1;
          } =
            ground (arith, e) in
          subst (Move p) (sym taken) (
            takes x xs (record (p.queue) { items = (top_pop task_less x xs).1 }) (p.idle - 1) e refl
              (omega arith))

  retry_dequeue-Move : (p : Pool W) → 0 < p.queue.woken → Move p (retry_dequeue p)
  unfolding retry_dequeue start_task BtsQueue.retry take_item
  retry_dequeue-Move p some_woken = by_items p.queue.items refl
    where
      by_items : (items : List (Task W)) → p.queue.items ≡ items → Move p (retry_dequeue p)
      by_items [] e =
          let sleeps : retry_dequeue p ≡ record p {
            queue = record (p.queue) { asleep = p.queue.asleep + 1; woken = p.queue.woken - 1 };
            idle = p.idle;
          } =
            ground (arith, e) in
          subst (Move p) (sym sleeps) (shifts _ p.idle refl (omega arith))
      by_items (x ∷ xs) e =
          let taken : retry_dequeue p ≡ record p {
            queue = record (p.queue) {
              items = (top_pop task_less x xs).1;
              woken = p.queue.woken - 1;
            };
            running = (top_pop task_less x xs).0 ∷ p.running;
            idle = p.idle;
          } =
            ground (arith, e) in
          subst (Move p) (sym taken) (
            takes x xs
              (record (p.queue) { items = (top_pop task_less x xs).1; woken = p.queue.woken - 1 })
              p.idle e refl (omega arith))

  notify_one-Move : (p : Pool W) → Move p (record p { queue = BtsQueue.notify_one p.queue })
  unfolding BtsQueue.notify_one
  notify_one-Move p = shifts (BtsQueue.notify_one p.queue) p.idle (ground arith) (ground arith)

  spurious-Move :
      (p : Pool W)
      → 0 < p.queue.asleep
      → Move p (record p {
        queue = record (p.queue) { asleep = p.queue.asleep - 1; woken = p.queue.woken + 1 };
      })
  spurious-Move p some_asleep = shifts _ p.idle refl (omega arith)

  -- What the workers do are such steps.
  pub Works-Move : {p q : Pool W} → Works p q → Move p q
  Works-Move {p} (notifies some_pending) = notify_one-Move p
  Works-Move {p} (dequeues some_idle) = call_dequeue-Move p some_idle
  Works-Move {p} (retries some_woken) = retry_dequeue-Move p some_woken
  Works-Move {p} (spurious some_asleep) = spurious-Move p some_asleep
  Works-Move (finishes before t after e) = ends before t after e
