-- ===== src/ThreadPool/Sound.antt =====
-- The pool in every interleaving: where its workers and its tasks are.
use private_distributed_clou.Prelude.{
  ℕ, ◌+◌, ◌≤◌, ◌≡◌, inl, inr, refl, ap, sym, Bool, true, List, ◌∷◌, ◌++◌, length, ◌==◌, arith,
  Bool-cases,
}
use mathlib.Core.Path.{subst}
use private_distributed_clou.BtsQueue
use private_distributed_clou.BtsQueue.{
  BtsQueue, All, top_pop, take_item, IsAwake, length-top_pop, take_item-length, Reach-IsAwake,
}
use private_distributed_clou.ThreadPool.{
  Task, Finished, task_less, async, bad_apple, bad_apple_status, run_task,
}
use private_distributed_clou.ThreadPool.Tally.{
  tally, tally-middle, length-middle, All-middle, tally-top_pop, All-top_pop,
}
use private_distributed_clou.ThreadPool.Moves.{Move, shifts, takes, ends, Works-Move}
use private_distributed_clou.ThreadPool.Workers.{
  Pool, new_pool, submit, finish_task, Step, Reach, submits, shuts_down, works, start, later,
}

abbrev is_bad : Finished → Bool
is_bad f = f.status == bad_apple_status

module _ {W : Type 0} (apple : ℕ → Bool) (num_of_threads : ℕ) where
  -- A task at the address of an apple returns -1.
  abbrev pub StopsWorker : Task W → Type 0
  StopsWorker t = apple t.address ≡ true → (w : W) → (t.function w).0 ≡ bad_apple_status

  pub record IsSound (p : Pool W) : Type 0 where
    -- Every worker is at one place.
    pub staffed :
        p.idle + p.queue.asleep + p.queue.woken + length p.running + p.stopped ≡ num_of_threads
    -- Every submitted task is at one place: in the queue, with a worker, or run.
    pub once :
        (q : ℕ → Bool)
        → tally q p.submitted
          ≡ tally (λ t. q t.address) p.queue.items
            + tally (λ t. q t.address) p.running
            + tally (λ f. q f.address) p.finished
    -- A worker has stopped for each task that returned -1.
    pub stops : p.stopped ≡ tally is_bad p.finished
    pub queued_apples : All StopsWorker p.queue.items
    pub running_apples : All StopsWorker p.running
    pub finished_apples : tally (λ f. apple f.address) p.finished ≤ tally is_bad p.finished

  pub submit-IsSound :
      (address : ℕ) (func : W → ℕ × W) (p : Pool W)
      → (apple address ≡ true → (w : W) → (func w).0 ≡ bad_apple_status)
      → IsSound p
      → IsSound (submit address func p)
  unfolding submit async BtsQueue.push
  submit-IsSound address func p stops v = record {
    staffed = v.staffed;
    once = λ q. omega (arith, v.once q);
    stops = v.stops;
    queued_apples = (stops, v.queued_apples);
    running_apples = v.running_apples;
    finished_apples = v.finished_apples;
  }

  -- A worker has taken the top of the queue, and stands in `Run`.
  takes-IsSound :
      (x : Task W) (xs : List (Task W)) (p : Pool W) (q : BtsQueue (Task W)) (idle : ℕ)
      → p.queue.items ≡ x ∷ xs
      → q.items ≡ (top_pop task_less x xs).1
      → idle + q.asleep + q.woken + 1 ≡ p.idle + p.queue.asleep + p.queue.woken
      → IsSound p
      → IsSound
          (record p { queue = q; running = (top_pop task_less x xs).0 ∷ p.running; idle = idle })
  takes-IsSound x xs p q idle e e' moved v =
      let all = subst (All StopsWorker) e v.queued_apples in
      let parts = All-top_pop task_less StopsWorker x xs all.0 all.1 in
      record {
        staffed = omega (arith, v.staffed, moved);
        once = λ r. omega (
          arith,
          v.once r,
          tally-top_pop task_less (λ t. r t.address) x xs,
          ap (tally (λ t. r t.address)) e,
          ap (tally (λ t. r t.address)) e',
        );
        stops = v.stops;
        queued_apples = subst (All StopsWorker) (sym e') parts.1;
        running_apples = (parts.0, v.running_apples);
        finished_apples = v.finished_apples;
      }

  -- Workers have moved between the places at which they hold no task.
  moves-IsSound :
      (p : Pool W) (q : BtsQueue (Task W)) (idle : ℕ)
      → q.items ≡ p.queue.items
      → idle + q.asleep + q.woken ≡ p.idle + p.queue.asleep + p.queue.woken
      → IsSound p
      → IsSound (record p { queue = q; idle = idle })
  moves-IsSound p q idle e moved v = record {
    staffed = omega (arith, v.staffed, moved);
    once = λ r. omega (arith, v.once r, ap (tally (λ t. r t.address)) e);
    stops = v.stops;
    queued_apples = subst (All StopsWorker) (sym e) v.queued_apples;
    running_apples = v.running_apples;
    finished_apples = v.finished_apples;
  }

  finishes-IsSound :
      (before : List (Task W)) (t : Task W) (after : List (Task W)) (p : Pool W)
      → p.running ≡ before ++ (t ∷ after)
      → IsSound p
      → IsSound (finish_task t (before ++ after) p)
  unfolding finish_task run_task
  finishes-IsSound before t after p e v =
      let parts =
        All-middle StopsWorker before t after (subst (All StopsWorker) e v.running_apples) in
      record {
        staffed = ground (arith, v.staffed, ap length e, length-middle before t after);
        once = λ r. omega (
          arith,
          v.once r,
          ap (tally (λ u. r u.address)) e,
          tally-middle (λ u. r u.address) before t after,
        );
        stops = ground (arith, v.stops);
        queued_apples = v.queued_apples;
        running_apples = parts.1;
        finished_apples = elim (Bool-cases (apple t.address)) [
          | inl bad ↦ ground (arith, v.finished_apples, parts.0 bad p.world)
          | inr good ↦ ground (arith, v.finished_apples)
        ];
      }

  pub Move-IsSound : {p q : Pool W} → Move p q → IsSound p → IsSound q
  Move-IsSound {p} (shifts q idle e moved) v = moves-IsSound p q idle e moved v
  Move-IsSound {p} (takes x xs q idle e e' moved) v = takes-IsSound x xs p q idle e e' moved v
  Move-IsSound {p} (ends before t after e) v = finishes-IsSound before t after p e v

  -- What other threads do to the world leaves the pool as it is.
  pub world-IsSound : (p : Pool W) (w : W) → IsSound p → IsSound (record p { world = w })
  world-IsSound p w v = record {
    staffed = v.staffed;
    once = v.once;
    stops = v.stops;
    queued_apples = v.queued_apples;
    running_apples = v.running_apples;
    finished_apples = v.finished_apples;
  }

  pub new_pool-IsSound : (world : W) → IsSound (new_pool num_of_threads world)
  unfolding new_pool BtsQueue.new_queue
  new_pool-IsSound world = record {
    staffed = omega arith;
    once = λ q. omega arith;
    stops = refl;
    queued_apples = tt;
    running_apples = tt;
    finished_apples = omega arith;
  }

  Step-IsSound : {p q : Pool W} → Step apple p q → IsSound p → IsSound q
  unfolding bad_apple
  Step-IsSound {p} (submits address func other) v = submit-IsSound address func p (λ same. cc) v
  Step-IsSound {p} (shuts_down address same) v =
      submit-IsSound address (bad_apple address).function p (λ _ w. refl) v
  Step-IsSound (works move) v = Move-IsSound (Works-Move move) v

  -- In every state that any interleaving of the workers and their clients reaches, every worker is at
  -- one place, every task that was submitted is in the queue, with a worker, or was run, and once, and a worker
  -- has stopped for each task that returned -1.
  pub Reach-IsSound : {world : W} {p : Pool W} → Reach apple num_of_threads world p → IsSound p
  Reach-IsSound start = new_pool-IsSound _
  Reach-IsSound (later r st) = Step-IsSound st (Reach-IsSound r)
