-- ===== src/Examples/Workers.antt =====
-- A pool of two workers that is shut down, a future, and a request that is freed under its jobs.
use private_distributed_clou.Prelude.{
  ℕ, ◌+◌, ◌≤◌, ◌≡◌, ◌⊎◌, refl, Bool, some, [], ◌∷◌, length, leb, arith,
}
use private_distributed_clou.BtsQueue.{All}
use private_distributed_clou.ThreadPool.Workers
use private_distributed_clou.ThreadPool.Workers.{
  Pool, new_pool, submit, submit_apples, call_dequeue,
}
use private_distributed_clou.ThreadPool.Tally.{tally}
use private_distributed_clou.ThreadPool.Sound
use private_distributed_clou.ThreadPool.Drains.{GoesOn, called, Runs, at_end, step, work_left}
use private_distributed_clou.ThreadPool.ShutDown.{shut_down_returns, Reach-submit_apples}
use private_distributed_clou.ThreadPool.Future
use private_distributed_clou.Semaphore
use private_distributed_clou.Host.Race.{Reach}

-- The apples of `ShutDown` lie at the addresses from 100 on.
abbrev is_apple : ℕ → Bool
is_apple a = leb 100 a

abbrev count_up : ℕ → ℕ × ℕ
count_up n = (0, n + 1)

-- One task, and then `ShutDown` with two apples.
abbrev shutting_down : Pool ℕ
shutting_down = submit_apples (100 ∷ 116 ∷ []) (submit 16 count_up (new_pool 2 0))

shutting_down-Reach : Workers.Reach is_apple 2 0 shutting_down
shutting_down-Reach =
    Reach-submit_apples is_apple 2 (100 ∷ 116 ∷ []) (refl, (refl, tt))
      (Workers.later Workers.start (Workers.submits 16 count_up refl))

enough_apples : 2 ≤ tally is_apple shutting_down.submitted
unfolding submit_apples submit new_pool
enough_apples = omega arith

-- One worker takes a task.
abbrev one_call : Pool ℕ
one_call = call_dequeue shutting_down

one_call-Runs : Runs is_apple 2 one_call shutting_down
unfolding submit_apples submit new_pool
one_call-Runs = step (called (omega arith)) at_end

shut_down_returns_example :
    (1 ≤ work_left is_apple 2 shutting_down)
    × (((q : Pool ℕ) × GoesOn is_apple 2 one_call q) ⊎ (one_call.stopped ≡ 2))
unfolding submit_apples submit new_pool one_call-Runs
shut_down_returns_example =
    shut_down_returns is_apple 2 shutting_down-Reach enough_apples one_call-Runs

Reach-IsSound_example : Sound.IsSound is_apple 2 shutting_down
Reach-IsSound_example = Sound.Reach-IsSound is_apple 2 shutting_down-Reach

-- A client sleeps, and the worker sets 5 and posts.
abbrev answered : Future.Promise
answered = Future.post_status (Future.set_status 5 (Future.wait_status Future.new_promise))

answered-Reach : Future.Reach 5 answered
unfolding Future.set_status Future.wait_status Future.new_promise Semaphore.wait
    Semaphore.new_semaphore
answered-Reach =
    Future.later (Future.later (Future.later Future.start Future.waits) (Future.sets refl))
      (Future.posts refl refl)

wait_gives_status_example :
    All (λ r. r ≡ some 5) (Future.get_status (Future.retry_status answered)).returned
    × (length (Future.get_status (Future.retry_status answered)).returned ≤ 1)
unfolding Future.post_status Future.set_status Future.wait_status Future.new_promise
    Future.retry_status Semaphore.wait Semaphore.new_semaphore Semaphore.post Semaphore.retry
    Semaphore.notify_one
wait_gives_status_example = Future.wait_gives_status (
    Future.later (Future.later answered-Reach (Future.retries (omega arith)))
      (Future.reads (omega arith)))

-- A client sleeps, and is woken.
abbrev waits_once : Future.Promise
waits_once = Future.post_status (Future.set_status 5 (Future.wait_status Future.new_promise))
