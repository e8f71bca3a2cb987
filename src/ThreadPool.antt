-- ===== src/ThreadPool.antt =====
-- final_project/framework/src/ThreadPool/ThreadPool.hpp and ThreadPool.cpp: the tasks and the loop of a
-- worker thread. `W` is the state that the tasks work on; an `int` is its 32-bit pattern.
pub mod Workers
pub mod Drains
pub mod Logs
pub mod Moves
pub mod Tally
pub mod Sound
pub mod Future
pub mod ShutDown
use private_distributed_clou.Prelude.{
  ℕ, zero, suc, ◌-◌, ◌^◌, ◌<◌, ◌≡◌, ◌≢◌, inl, inr, refl, Bool, true, false, none, some, List, [],
  ◌∷◌, ◌++◌, map, length, ltb, ◌==◌, arith, Bool-cases,
}
use mathlib.Core.List.{Perm}
use mathlib.Core.List.Perm
use private_distributed_clou.Run.{Run, done, running, ◌>>=◌}
use private_distributed_clou.BtsQueue.{
  BtsQueue, All, push, top_pop, take_item, top_pop-perm, length-top_pop,
}

-- `BADAPPLE`, that is -1.
abbrev pub bad_apple_status : ℕ
bad_apple_status = 2 ^ 32 - 1

-- `ThreadPool::Task`, with the address at which `new Task` put it.
pub record Task (W : Type 0) : Type 0 where
  pub address : ℕ
  pub function : W → ℕ × W
  pub priority : ℕ

-- What `Task::Run` leaves: `m_status` is set and the semaphore was posted.
pub record Finished : Type 0 where
  pub address : ℕ
  pub status : ℕ

module _ {W : Type 0} where
  -- The comparison of the queue: `m_tasks` is a `BtsQueue<std::shared_ptr<Task>>` with the default
  -- `std::less`, which compares the addresses.
  unfoldable pub task_less : Task W → Task W → Bool
  task_less a b = ltb a.address b.address

  -- `Async(func)`, its new task at `address`.
  unfoldable pub async : ℕ → (W → ℕ × W) → BtsQueue (Task W) → BtsQueue (Task W)
  async address func q = push (record { address = address; function = func; priority = 0 }) q

  -- The task of `BadApple`.
  unfoldable pub bad_apple : ℕ → Task W
  bad_apple address = record {
    address = address;
    function = λ w. (bad_apple_status, w);
    priority = 0;
  }

-- How a worker leaves the queue: the tasks left, those run, in order, and whether it stopped. A worker
-- that has not stopped sleeps in `Dequeue`.
pub record Shift (W : Type 0) : Type 0 where
  pub left : List (Task W)
  pub finished : List Finished
  pub world : W
  pub stopped : Bool

module _ {W : Type 0} where
  -- `Task::Run()`.
  unfoldable pub run_task : Task W → W → Finished × W
  run_task t w =
      let (status, w') = t.function w in (record { address = t.address; status = status }, w')

  -- `TaskDespacher()`, for a worker that is alone with the tasks of the queue.
  unfoldable pub task_despacher : ℕ → List (Task W) → W → Run (Shift W)
  unfolding task_less run_task
  task_despacher zero items w = running
  task_despacher (suc fuel) items w = elim (take_item task_less items) [
    | none ↦ done (record { left = []; finished = []; world = w; stopped = false })
    | some taken ↦
        let (ran, w') = run_task taken.0 w in
        elim (ran.status == bad_apple_status) [
          | true ↦ done (record { left = taken.1; finished = ran ∷ []; world = w'; stopped = true })
          | false ↦ task_despacher fuel taken.1 w' >>= λ shift.
              done (record shift { finished = ran ∷ shift.finished })
        ]
  ]

  top_pop-below :
      (n : ℕ) (u : Task W) (items : List (Task W))
      → All (λ v. v.address < n) (u ∷ items)
      → (top_pop task_less u items).0.address < n
  unfolding top_pop
  top_pop-below n u [] h = h.0
  top_pop-below n u (v ∷ items) h = ground (arith, top_pop-below n v items h.1)

  top_pop-largest :
      (t : Task W) (items : List (Task W))
      → All (λ u. u.address < t.address) items
      → top_pop task_less t items ≡ (t, items)
  unfolding top_pop task_less
  top_pop-largest t [] h = refl
  top_pop-largest t (u ∷ items) h = ground (arith, top_pop-below t.address u items h)

  -- `ShutDown` puts a `BadApple` behind the tasks of the queue. Where its address is the highest, the
  -- worker takes it first and stops: no task of the queue is run, and the state is as before.
  pub bad_apple_first :
      (apple fuel : ℕ) (tasks : List (Task W)) (w : W)
      → All (λ u. u.address < apple) tasks
      → task_despacher (suc fuel) (bad_apple apple ∷ tasks) w
        ≡ done (record {
          left = tasks;
          finished = record { address = apple; status = bad_apple_status } ∷ [];
          world = w;
          stopped = true;
        })
  unfolding task_despacher bad_apple take_item run_task
  bad_apple_first apple fuel tasks w h = ground (arith, top_pop-largest (bad_apple apple) tasks h)

  -- What a shift of a worker leaves of the tasks `items`.
  pub record Worked (items : List (Task W)) (shift : Shift W) : Type 0 where
    -- Each task was run once or is left, and nothing else was run.
    pub once :
        Perm
          (map (λ t. t.address) items)
          (map (λ f. f.address) shift.finished ++ map (λ t. t.address) shift.left)
    -- A worker that did not stop left nothing, and ran no task with the status -1.
    pub drained : shift.stopped ≡ false → shift.left ≡ []
    pub no_apple : shift.stopped ≡ false → All (λ f. f.status ≢ bad_apple_status) shift.finished

  once-cons :
      (x : Task W) (xs left : List (Task W)) (finished : List Finished)
      → Perm
          (map (λ u. u.address) (top_pop task_less x xs).1)
          (map (λ f. f.address) finished ++ map (λ u. u.address) left)
      → Perm (map (λ u. u.address) (x ∷ xs)) (
          (top_pop task_less x xs).0.address
          ∷ (map (λ f. f.address) finished ++ map (λ u. u.address) left))
  once-cons x xs left finished p =
      Perm.trans (Perm.map (λ u. u.address) (top_pop-perm task_less x xs))
        (Perm.cons (top_pop task_less x xs).0.address p)

  -- A worker that is alone with its queue comes to an end: it stops, or it sleeps on the empty queue. Each
  -- task was run once or is left in the queue, and if it did not stop, nothing is left and no task
  -- returned -1.
  task_despacher-Worked :
      (fuel : ℕ) (items : List (Task W)) (w : W)
      → length items < fuel
      → (shift : Shift W) × (task_despacher fuel items w ≡ done shift) × Worked items shift
  unfolding task_despacher take_item run_task
  task_despacher-Worked zero items w h = absurd (omega arith)
  task_despacher-Worked (suc fuel) [] w h = (
    record { left = []; finished = []; world = w; stopped = false },
    refl,
    record { once = Perm.refl []; drained = λ _. refl; no_apple = λ _. tt },
  )
  task_despacher-Worked (suc fuel) (x ∷ xs) w h =
      let t = (top_pop task_less x xs).0 in
      let rest = (top_pop task_less x xs).1 in
      let ran : Finished = (run_task t w).0 in
      let (shift, run, worked) =
        task_despacher-Worked fuel rest (run_task t w).1
          (omega (arith, length-top_pop task_less x xs)) in
      elim (Bool-cases ((run_task t w).0.status == bad_apple_status)) [
        | inl stops ↦ (
          record { left = rest; finished = ran ∷ []; world = (run_task t w).1; stopped = true },
          ground arith,
          record {
            once = once-cons x xs rest [] (Perm.refl (map (λ u. u.address) rest));
            drained = λ e. cc;
            no_apple = λ e. cc;
          },
        )
        | inr goes_on ↦ (
          record shift { finished = ran ∷ shift.finished },
          ground (arith, run),
          record {
            once = once-cons x xs shift.left shift.finished worked.once;
            drained = worked.drained;
            no_apple = λ e. (ground arith, worked.no_apple e);
          },
        )
      ]
