-- ===== src/ThreadPool/Future.antt =====
-- ThreadPool::Task and ThreadPool::Future: the status of one task, which a worker sets and clients wait for. Nobody
-- calls `Future::Post`, `Task::SetStatus` or `Run` a second time.
use private_distributed_clou.Prelude.{
  ℕ, ◌+◌, ◌≤◌, ◌<◌, ◌≡◌, Option, none, some, List, [], ◌∷◌, length, arith, ◌-◌,
}
use private_distributed_clou.Semaphore
use private_distributed_clou.Semaphore.{Semaphore}
use private_distributed_clou.BtsQueue.{All}

-- A task: `m_status`, which nothing sets before `Run`, its semaphore, the clients between the return of
-- `m_ptr->Wait()` and `GetStatus()`, and what the calls of `Future::Wait` have returned.
pub record Promise : Type 0 where
  pub status : Option ℕ
  pub sem : Semaphore
  pub to_read : ℕ
  pub returned : List (Option ℕ)

-- `Task(func)`.
unfoldable pub new_promise : Promise
new_promise = record { status = none; sem = Semaphore.new_semaphore 0; to_read = 0; returned = [] }

-- `m_status = m_function();` in `Run`, and `m_sem.Post();` behind it.
unfoldable pub set_status : ℕ → Promise → Promise
set_status s p = record p { status = some s }

unfoldable pub post_status : Promise → Promise
post_status p = record p { sem = Semaphore.post p.sem }

-- `Future::Wait()` up to the return of the semaphore's wait or the first sleep in it; a woken client tests again.
unfoldable pub wait_status : Promise → Promise
wait_status p =
    let sem = Semaphore.wait p.sem in
    record p { sem = sem; to_read = p.to_read + (sem.passed - p.sem.passed) }

unfoldable pub retry_status : Promise → Promise
retry_status p =
    let sem = Semaphore.retry p.sem in
    record p { sem = sem; to_read = p.to_read + (sem.passed - p.sem.passed) }

-- `return m_ptr->GetStatus();`.
unfoldable pub get_status : Promise → Promise
get_status p = record p { to_read = p.to_read - 1; returned = p.status ∷ p.returned }

-- The steps of the worker and of any number of clients, for a function that returns `s`.
pub data Step (s : ℕ) (p : Promise) : Promise → Type 0 where
  sets : p.status ≡ none → Step s p (set_status s p)
  posts : p.status ≡ some s → p.sem.posts ≡ 0 → Step s p (post_status p)
  waits : Step s p (wait_status p)
  retries : 0 < p.sem.woken → Step s p (retry_status p)
  spurious :
      0 < p.sem.asleep
      → Step s p
          (record p { sem = record (p.sem) { asleep = p.sem.asleep - 1; woken = p.sem.woken + 1 } })
  reads : 0 < p.to_read → Step s p (get_status p)

pub data Reach (s : ℕ) : Promise → Type 0 where
  start : Reach s new_promise
  later : {p q : Promise} → Reach s p → Step s p q → Reach s q

pub record IsKept (s : ℕ) (p : Promise) : Type 0 where
  -- The semaphore is posted once at most, behind the status.
  pub once : p.sem.posts ≤ 1
  pub behind : 0 < p.sem.posts → p.status ≡ some s
  pub conserved : p.sem.count + p.sem.passed ≡ p.sem.posts
  pub awake : 0 < p.sem.asleep → p.sem.count ≤ p.sem.woken
  -- Every client that is past the semaphore reads or has read.
  pub past : p.to_read + length p.returned ≡ p.sem.passed
  pub told : All (λ r. r ≡ some s) p.returned

Step-IsKept : {s : ℕ} {p q : Promise} → Step s p q → IsKept s p → IsKept s q
unfolding set_status post_status wait_status retry_status get_status Semaphore.post Semaphore.wait
    Semaphore.retry Semaphore.notify_one
Step-IsKept (sets unset) v = ground arith
Step-IsKept (posts e first) v = ground arith
Step-IsKept waits v = ground arith
Step-IsKept (retries some_woken) v = ground arith
Step-IsKept (spurious some_asleep) v = ground arith
Step-IsKept (reads some_there) v = ground arith

Reach-IsKept : {s : ℕ} {p : Promise} → Reach s p → IsKept s p
unfolding new_promise Semaphore.new_semaphore
Reach-IsKept start = ground arith
Reach-IsKept (later r st) = Step-IsKept st (Reach-IsKept r)

-- In every interleaving of a worker and any number of clients, a call of `Future::Wait` that returns gives what
-- the function of the task has returned; and at most one call returns, since `Run` posts once.
pub wait_gives_status :
    {s : ℕ} {p : Promise} → Reach s p → All (λ r. r ≡ some s) p.returned × (length p.returned ≤ 1)
wait_gives_status r = let v = Reach-IsKept r in (v.told, omega (arith, v.past, v.conserved, v.once))
