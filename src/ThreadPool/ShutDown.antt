-- ===== src/ThreadPool/ShutDown.antt =====
-- ThreadPool::ShutDown: why its joins return.
use private_distributed_clou.Prelude.{
  ℕ, ◌+◌, ◌≤◌, ◌≡◌, ◌⊎◌, inl, inr, refl, ap, Bool, true, false, List, [], ◌∷◌, length, ltb, arith,
  Bool-cases,
}
use private_distributed_clou.BtsQueue.{All, IsAwake, Reach-IsAwake}
use private_distributed_clou.ThreadPool.{task_less, bad_apple}
use private_distributed_clou.ThreadPool.Sound.{IsSound, Reach-IsSound}
use private_distributed_clou.ThreadPool.Tally.{tally, tally-le-length}
use private_distributed_clou.ThreadPool.Drains.{
  GoesOn, Runs, steps, work_left, going_on_or, Runs-Reach,
}
use private_distributed_clou.ThreadPool.Workers.{
  Pool, submit, submit_apples, destroy_pool, shuts_down, Reach, Reach-queue, later,
}

module _ {W : Type 0} (apple : ℕ → Bool) (num_of_threads : ℕ) where
  -- Where all workers that have not stopped sleep, and no notification is under way, all apples were run.
  all_stopped :
      (p : Pool W)
      → IsSound apple num_of_threads p
      → IsAwake p.queue
      → num_of_threads ≤ tally apple p.submitted
      → p.idle ≡ 0
      → p.queue.woken ≡ 0
      → p.queue.pending ≡ 0
      → p.running ≡ []
      → p.stopped ≡ num_of_threads
  all_stopped p v awake enough e1 e2 e3 e4 = elim (Bool-cases (ltb 0 p.queue.asleep)) [
    | inl sleeps ↦
        let drained : length p.queue.items ≤ 0 = ground (arith, awake) in
        omega (
          arith,
          v.staffed,
          v.once apple,
          v.stops,
          v.finished_apples,
          drained,
          tally-le-length (λ t. apple t.address) p.queue.items,
          ap (tally (λ t. apple t.address)) e4,
          enough,
        )
    | inr none_sleeps ↦ ground (arith, v.staffed, ap length e4)
  ]

  -- `ShutDown` has handed in an apple for each worker. However the workers are scheduled from then on, they take
  -- at most `work_left` steps, and after any number of these either some worker or notification can go on,
  -- or all workers have stopped, so that every join returns.
  pub shut_down_returns :
      {world : W} {q p : Pool W}
      → Reach apple num_of_threads world p
      → num_of_threads ≤ tally apple p.submitted
      → (run : Runs apple num_of_threads q p)
      → (steps apple num_of_threads run ≤ work_left apple num_of_threads p)
        × (((q' : Pool W) × GoesOn apple num_of_threads q q') ⊎ (q.stopped ≡ num_of_threads))
  shut_down_returns {q = q} r enough run =
      let (there, less, same, funcs) = Runs-Reach apple num_of_threads r run in
      (
        omega (arith, less),
        going_on_or apple num_of_threads q (
            all_stopped q (Reach-IsSound apple num_of_threads there)
              (Reach-IsAwake task_less (Reach-queue there))
              (omega (arith, ap (tally apple) same, enough))),
      )

  -- The apples that `ShutDown` hands in are enough for its joins.
  pub Reach-submit_apples :
      {world : W} (addresses : List ℕ) {p : Pool W}
      → All (λ a. apple a ≡ true) addresses
      → Reach apple num_of_threads world p
      → Reach apple num_of_threads world (submit_apples addresses p)
  unfolding submit_apples
  Reach-submit_apples [] all r = r
  Reach-submit_apples (address ∷ addresses) all r =
      Reach-submit_apples addresses all.1 (later r (shuts_down address all.0))

  pub tally-submit_apples :
      (addresses : List ℕ) (p : Pool W)
      → All (λ a. apple a ≡ true) addresses
      → tally apple (submit_apples addresses p).submitted
        ≡ length addresses + tally apple p.submitted
  unfolding submit_apples submit
  tally-submit_apples [] p all = omega arith
  tally-submit_apples (address ∷ addresses) p all = ground (
    arith,
    all.0,
    tally-submit_apples addresses (submit address (bad_apple address).function p) all.1,
  )

  -- The destructor of a pool that was not shut down hands in what its joins need; one that was shut down is left
  -- as it is.
  pub Reach-destroy_pool :
      {world : W} (running : Bool) (addresses : List ℕ) {p : Pool W}
      → All (λ a. apple a ≡ true) addresses
      → num_of_threads ≤ length addresses
      → (running ≡ false → num_of_threads ≤ tally apple p.submitted)
      → Reach apple num_of_threads world p
      → Reach apple num_of_threads world (destroy_pool running addresses p)
        × (num_of_threads ≤ tally apple (destroy_pool running addresses p).submitted)
  unfolding destroy_pool
  Reach-destroy_pool true addresses {p} all enough before r =
      (Reach-submit_apples addresses all r, omega (arith, tally-submit_apples addresses p all))
  Reach-destroy_pool false addresses all enough before r = (r, before refl)
