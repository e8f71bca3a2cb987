-- ===== src/ThreadPool/Workers.antt =====
-- ThreadPool.cpp with any number of workers and clients: what they do to the queue that they share. A task has its
-- whole effect on the world in one step, at the end of `Task::Run`.
use private_distributed_clou.Prelude.{
  ℕ, ◌+◌, ◌-◌, ◌<◌, ◌≡◌, Bool, true, false, Option, none, some, List, [], ◌∷◌, ◌++◌, ◌==◌,
  if◌then◌else◌,
}
use private_distributed_clou.BtsQueue
use private_distributed_clou.BtsQueue.{BtsQueue, All}
use private_distributed_clou.ThreadPool.{
  Task, Finished, task_less, async, bad_apple, bad_apple_status, run_task,
}

-- The pool, with its workers by where they stand: about to call `Dequeue` (`idle`), inside it (`asleep` and `woken`
-- of the queue), inside `Run` (`running`), or at the end of `TaskDespacher` (`stopped`). `submitted` are
-- the addresses of all tasks that `Async` was given.
pub record Pool (W : Type 0) : Type 0 where
  pub queue : BtsQueue (Task W)
  pub idle : ℕ
  pub running : List (Task W)
  pub finished : List Finished
  pub stopped : ℕ
  pub submitted : List ℕ
  pub world : W

module _ {W : Type 0} where
  -- `ThreadPool(num_of_threads)`.
  unfoldable pub new_pool : ℕ → W → Pool W
  new_pool num_of_threads world = record {
    queue = BtsQueue.new_queue;
    idle = num_of_threads;
    running = [];
    finished = [];
    stopped = 0;
    submitted = [];
    world = world;
  }

  -- `Async(func)`, up to the notification, for the new task at `address`.
  unfoldable pub submit : ℕ → (W → ℕ × W) → Pool W → Pool W
  submit address func p = record p {
    queue = async address func p.queue;
    submitted = address ∷ p.submitted;
  }

  -- The loop of `ShutDown` that hands in a `BadApple` for each worker, at new addresses.
  unfoldable pub submit_apples : List ℕ → Pool W → Pool W
  unfolding submit
  submit_apples [] p = p
  submit_apples (address ∷ addresses) p =
      submit_apples addresses (submit address (bad_apple address).function p)

  -- `~ThreadPool`, up to the joins of its `ShutDown`: `running` is `m_running`, which `ShutDown` clears behind its joins.
  unfoldable pub destroy_pool : Bool → List ℕ → Pool W → Pool W
  unfolding submit_apples
  destroy_pool running addresses p = if running then submit_apples addresses p else p

  -- A worker has left `Dequeue` with a task, or fell asleep in it.
  unfoldable pub start_task : BtsQueue (Task W) × Option (Task W) → Pool W → Pool W
  start_task r p = record p {
    queue = r.0;
    running = elim r.1 [ none ↦ p.running | some t ↦ t ∷ p.running ];
  }

  -- A worker calls `Dequeue`; a woken worker tests again.
  unfoldable pub call_dequeue : Pool W → Pool W
  unfolding start_task
  call_dequeue p = record (start_task (BtsQueue.dequeue task_less p.queue) p) { idle = p.idle - 1 }

  unfoldable pub retry_dequeue : Pool W → Pool W
  unfolding start_task
  retry_dequeue p = start_task (BtsQueue.retry task_less p.queue) p

  -- A worker ends the run of `t`, while the others run `others`, and tests the status.
  unfoldable pub finish_task : Task W → List (Task W) → Pool W → Pool W
  finish_task t others p =
      let (ran, world) = run_task t p.world in
      record p {
        running = others;
        finished = ran ∷ p.finished;
        stopped = if ran.status == bad_apple_status then p.stopped + 1 else p.stopped;
        idle = if ran.status == bad_apple_status then p.idle else p.idle + 1;
        world = world;
      }

  -- The steps that the workers take, and the notifications that are under way.
  pub data Works (p : Pool W) : Pool W → Type 0 where
    notifies : 0 < p.queue.pending → Works p (record p { queue = BtsQueue.notify_one p.queue })
    dequeues : 0 < p.idle → Works p (call_dequeue p)
    retries : 0 < p.queue.woken → Works p (retry_dequeue p)
    spurious :
        0 < p.queue.asleep
        → Works p (record p {
          queue = record (p.queue) { asleep = p.queue.asleep - 1; woken = p.queue.woken + 1 };
        })
    finishes :
        (before : List (Task W)) (t : Task W) (after : List (Task W))
        → p.running ≡ before ++ (t ∷ after)
        → Works p (finish_task t (before ++ after) p)

  -- The steps of the workers and of the thread that calls `Async`. `apple` tells the addresses of the tasks of
  -- `ShutDown` from those of its clients.
  pub data Step (apple : ℕ → Bool) (p : Pool W) : Pool W → Type 0 where
    submits :
        (address : ℕ) (func : W → ℕ × W)
        → apple address ≡ false
        → Step apple p (submit address func p)
    shuts_down :
        (address : ℕ)
        → apple address ≡ true
        → Step apple p (submit address (bad_apple address).function p)
    works : {q : Pool W} → Works p q → Step apple p q

  pub data Reach (apple : ℕ → Bool) (num_of_threads : ℕ) (world : W) : Pool W → Type 0 where
    start : Reach apple num_of_threads world (new_pool num_of_threads world)
    later :
        {p q : Pool W}
        → Reach apple num_of_threads world p
        → Step apple p q
        → Reach apple num_of_threads world q

  -- What the steps do to the queue are steps of the queue.
  pub Works-queue :
      {p q : Pool W}
      → Works p q
      → BtsQueue.Reach task_less p.queue
      → BtsQueue.Reach task_less q.queue
  unfolding call_dequeue retry_dequeue start_task finish_task
  Works-queue (notifies some_pending) r = BtsQueue.later r (BtsQueue.notifies some_pending)
  Works-queue (dequeues some_idle) r = BtsQueue.later r BtsQueue.dequeues
  Works-queue (retries some_woken) r = BtsQueue.later r (BtsQueue.retries some_woken)
  Works-queue (spurious some_asleep) r = BtsQueue.later r (BtsQueue.spurious some_asleep)
  Works-queue (finishes before t after e) r = r

  pub submit-queue :
      (address : ℕ) (func : W → ℕ × W) (p : Pool W)
      → BtsQueue.Reach task_less p.queue
      → BtsQueue.Reach task_less (submit address func p).queue
  unfolding submit async
  submit-queue address func p r = BtsQueue.later r (BtsQueue.enqueues _)

  pub Reach-queue :
      {apple : ℕ → Bool} {num_of_threads : ℕ} {world : W} {p : Pool W}
      → Reach apple num_of_threads world p
      → BtsQueue.Reach task_less p.queue
  unfolding new_pool
  Reach-queue start = BtsQueue.start
  Reach-queue (later r (submits address func e)) = submit-queue address func _ (Reach-queue r)
  Reach-queue (later r (shuts_down address e)) =
      submit-queue address (bad_apple address).function _ (Reach-queue r)
  Reach-queue (later r (works move)) = Works-queue move (Reach-queue r)

-- The functions that `Async` was given by clients, the first one first.
unfoldable pub handed_in :
    {W : Type 0} {apple : ℕ → Bool} {num_of_threads : ℕ} {world : W} {p : Pool W}
    → Reach apple num_of_threads world p
    → List (W → ℕ × W)
handed_in start = []
handed_in (later r (submits address func e)) = handed_in r ++ (func ∷ [])
handed_in (later r (shuts_down address e)) = handed_in r
handed_in (later r (works move)) = handed_in r
