-- ===== src/ThreadPool/Drains.antt =====
-- Without new tasks the workers come to an end, however they are scheduled.
use private_distributed_clou.Prelude.{
  ℕ, zero, suc, ◌+◌, ◌*◌, ◌≤◌, ◌<◌, ◌≡◌, ◌⊎◌, inl, inr, refl, ap, ◌∙◌, Bool, List, [], ◌∷◌, ◌++◌,
  length, ltb, arith, Bool-cases,
}
use private_distributed_clou.BtsQueue
use private_distributed_clou.BtsQueue.{
  BtsQueue, All, top_pop, take_item, IsAwake, length-top_pop, take_item-length, Reach-IsAwake,
}
use private_distributed_clou.ThreadPool.{Task, task_less, run_task}
use private_distributed_clou.ThreadPool.Sound.{IsSound, Reach-IsSound}
use private_distributed_clou.ThreadPool.Tally.{length-middle}
use private_distributed_clou.ThreadPool.Workers.{
  Pool, handed_in, start_task, call_dequeue, retry_dequeue, finish_task, Works, Reach, Reach-queue,
  works, notifies, dequeues, retries, finishes, later,
}

nil_of_length : {A : Type 0} (xs : List A) → length xs ≡ 0 → xs ≡ []
nil_of_length [] e = refl
nil_of_length (x ∷ xs) e = absurd (omega (arith, e))

module _ {W : Type 0} (apple : ℕ → Bool) (num_of_threads : ℕ) where
  -- A step that needs no client and no wakeup without a cause: a worker or a notification goes on.
  pub data GoesOn (p : Pool W) : Pool W → Type 0 where
    notified : 0 < p.queue.pending → GoesOn p (record p { queue = BtsQueue.notify_one p.queue })
    called : 0 < p.idle → GoesOn p (call_dequeue p)
    woke : 0 < p.queue.woken → GoesOn p (retry_dequeue p)
    ended :
        (before : List (Task W)) (t : Task W) (after : List (Task W))
        → p.running ≡ before ++ (t ∷ after)
        → GoesOn p (finish_task t (before ++ after) p)

  -- How many such steps there can be until all workers sleep or have stopped.
  unfoldable pub work_left : Pool W → ℕ
  work_left p =
      length p.queue.items * 4 + length p.running * 2 + p.idle + p.queue.woken + p.queue.pending * 2

  pub GoesOn-Works : {p q : Pool W} → GoesOn p q → Works p q
  GoesOn-Works (notified some_pending) = notifies some_pending
  GoesOn-Works (called some_idle) = dequeues some_idle
  GoesOn-Works (woke some_woken) = retries some_woken
  GoesOn-Works (ended before t after e) = finishes before t after e

  GoesOn-work_left : {p q : Pool W} → GoesOn p q → work_left q < work_left p
  unfolding work_left call_dequeue retry_dequeue start_task BtsQueue.dequeue BtsQueue.retry
      BtsQueue.notify_one finish_task run_task
  GoesOn-work_left {p} (notified some_pending) = ground arith
  GoesOn-work_left {p} (called some_idle) = ground (arith, take_item-length task_less p.queue.items)
  GoesOn-work_left {p} (woke some_woken) = ground (arith, take_item-length task_less p.queue.items)
  GoesOn-work_left {p} (ended before t after e) =
      ground (arith, ap length e, length-middle before t after)

  -- A worker or a notification goes on, unless none is at a place where it can.
  pub going_on_or :
      {R : Type 0} (p : Pool W)
      → (p.idle ≡ 0 → p.queue.woken ≡ 0 → p.queue.pending ≡ 0 → p.running ≡ [] → R)
      → ((q : Pool W) × GoesOn p q) ⊎ R
  going_on_or {R} p = by_place p.idle p.queue.woken p.queue.pending p.running refl refl refl refl
    where
      by_place :
          (idle woken pending : ℕ) (running : List (Task W))
          → p.idle ≡ idle
          → p.queue.woken ≡ woken
          → p.queue.pending ≡ pending
          → p.running ≡ running
          → (p.idle ≡ 0 → p.queue.woken ≡ 0 → p.queue.pending ≡ 0 → p.running ≡ [] → R)
          → ((q : Pool W) × GoesOn p q) ⊎ R
      by_place (suc idle) woken pending running e1 e2 e3 e4 stuck = inl (_, called (omega arith))
      by_place zero (suc woken) pending running e1 e2 e3 e4 stuck = inl (_, woke (omega arith))
      by_place zero zero (suc pending) running e1 e2 e3 e4 stuck = inl (_, notified (omega arith))
      by_place zero zero zero (t ∷ ts) e1 e2 e3 e4 stuck = inl (_, ended [] t ts e4)
      by_place zero zero zero [] e1 e2 e3 e4 stuck = inr (stuck e1 e2 e3 e4)

  -- Such steps, one after the other, to the state `r`.
  pub data Runs (r : Pool W) : Pool W → Type 0 where
    at_end : Runs r r
    step : {p q : Pool W} → GoesOn p q → Runs r q → Runs r p

  abbrev pub steps : {r p : Pool W} → Runs r p → ℕ
  steps at_end = 0
  steps (step g run) = suc (steps run)

  submitted-GoesOn : {p q : Pool W} → GoesOn p q → q.submitted ≡ p.submitted
  unfolding call_dequeue retry_dequeue start_task finish_task
  submitted-GoesOn (notified some_pending) = refl
  submitted-GoesOn (called some_idle) = refl
  submitted-GoesOn (woke some_woken) = refl
  submitted-GoesOn (ended before t after e) = refl

  pub Runs-work_left : {q p : Pool W} (run : Runs q p) → steps run + work_left q ≤ work_left p
  Runs-work_left at_end = omega arith
  Runs-work_left (step g run) = omega (arith, GoesOn-work_left g, Runs-work_left run)

  -- A run of such steps leads to a reached state, makes the measure smaller with each step, and hands in nothing.
  pub Runs-Reach :
      {world : W} {q p : Pool W} (r : Reach apple num_of_threads world p) (run : Runs q p)
      → (there : Reach apple num_of_threads world q) × (steps run + work_left q ≤ work_left p)
        × (q.submitted ≡ p.submitted)
        × (handed_in there ≡ handed_in r)
  unfolding handed_in
  Runs-Reach r at_end = (r, omega arith, refl, refl)
  Runs-Reach r (step g run) =
      let (there, less, same, funcs) = Runs-Reach (later r (works (GoesOn-Works g))) run in
      (there, omega (arith, GoesOn-work_left g, less), same ∙ submitted-GoesOn g, funcs)

  -- Where every worker that has not stopped sleeps, and no notification is under way, the queue is empty, unless all
  -- have stopped.
  pub queue_drained :
      (p : Pool W)
      → IsSound apple num_of_threads p
      → IsAwake p.queue
      → p.idle ≡ 0
      → p.queue.woken ≡ 0
      → p.queue.pending ≡ 0
      → p.running ≡ []
      → ((p.queue.items ≡ []) × (p.running ≡ [])) ⊎ (p.stopped ≡ num_of_threads)
  queue_drained p v awake e1 e2 e3 e4 = elim (Bool-cases (ltb 0 p.queue.asleep)) [
    | inl sleeps ↦ inl (nil_of_length p.queue.items (ground (arith, awake)), e4)
    | inr none_sleeps ↦ inr (ground (arith, v.staffed, ap length e4))
  ]

  -- From every state that an interleaving reaches, however the workers are scheduled while no client hands in a task:
  -- they take at most `work_left` steps, and after any number of these some worker or notification can
  -- go on, or no task is in the queue or with a worker, or all workers have stopped.
  pub pool_drains :
      {world : W} {q p : Pool W}
      → Reach apple num_of_threads world p
      → (run : Runs q p)
      → (steps run ≤ work_left p)
        × (((q' : Pool W) × GoesOn q q')
            ⊎ (((q.queue.items ≡ []) × (q.running ≡ [])) ⊎ (q.stopped ≡ num_of_threads)))
  pool_drains {q = q} r run =
      let (there, less, same, funcs) = Runs-Reach r run in
      (
        omega (arith, less),
        going_on_or q (
            queue_drained q (Reach-IsSound apple num_of_threads there)
              (Reach-IsAwake task_less (Reach-queue there))),
      )
