-- ===== src/Examples/Threads.antt =====
-- Interleavings of threads that are reached, and a worker of the pool.
use private_distributed_clou.Prelude.{ℕ, ◌+◌, ◌<◌, ◌≡◌, ◌⊎◌, true, [], ◌∷◌, ltb, arith}
use private_distributed_clou.Run.{done}
use private_distributed_clou.Semaphore
use private_distributed_clou.BtsQueue
use private_distributed_clou.Singleton
use private_distributed_clou.ThreadPool.{
  Task, bad_apple, bad_apple_status, task_despacher, bad_apple_first,
}

-- One thread sleeps, a unit comes, and before the sleeper is back another one wakes with no cause.
woken :
    Semaphore.Reach 0 (Semaphore.post (Semaphore.wait (Semaphore.wait (Semaphore.new_semaphore 0))))
woken =
    Semaphore.later
      (Semaphore.later (Semaphore.later Semaphore.start Semaphore.waits) Semaphore.waits)
      Semaphore.posted

Reach-IsValid_example :
    Semaphore.IsValid 0
      (Semaphore.post (Semaphore.wait (Semaphore.wait (Semaphore.new_semaphore 0))))
Reach-IsValid_example = Semaphore.Reach-IsValid woken

no_deadlock_example :
    Semaphore.Step (Semaphore.post (Semaphore.wait (Semaphore.wait (Semaphore.new_semaphore 0)))) (
      Semaphore.retry
        (Semaphore.post (Semaphore.wait (Semaphore.wait (Semaphore.new_semaphore 0)))))
    × ((Semaphore.retry
          (Semaphore.post (Semaphore.wait (Semaphore.wait (Semaphore.new_semaphore 0))))).passed
        ≡ (Semaphore.post (Semaphore.wait (Semaphore.wait (Semaphore.new_semaphore 0)))).passed + 1)
unfolding Semaphore.post Semaphore.wait Semaphore.new_semaphore
no_deadlock_example = Semaphore.no_deadlock woken (omega arith) (omega arith)

-- A consumer sleeps, and two items come before it is notified.
abbrev busy_queue : BtsQueue.BtsQueue ℕ
busy_queue = BtsQueue.push 4 (BtsQueue.push 9 (BtsQueue.dequeue ltb BtsQueue.new_queue).0)

busy : BtsQueue.Reach ltb busy_queue
busy =
    BtsQueue.later
      (BtsQueue.later (BtsQueue.later BtsQueue.start BtsQueue.dequeues) (BtsQueue.enqueues 9))
      (BtsQueue.enqueues 4)

Reach-IsAwake_example : BtsQueue.IsAwake busy_queue
Reach-IsAwake_example = BtsQueue.Reach-IsAwake ltb busy

-- Two threads saw the null pointer; one of them won, the other spins.
abbrev raced : Singleton.Singleton
raced =
    Singleton.test_and_set
      (Singleton.test_and_set (Singleton.first_test (Singleton.first_test Singleton.no_instance)))

race : Singleton.Reach raced
unfolding Singleton.test_and_set Singleton.first_test Singleton.no_instance
race =
    Singleton.later
      (Singleton.later
        (Singleton.later (Singleton.later Singleton.start Singleton.enters) Singleton.enters)
        (Singleton.tests (omega arith)))
      (Singleton.tests (omega arith))

-- The winner makes the object, and `exit` deletes it while the other one spins.
cleaned_up :
    Singleton.Reach
      (Singleton.delete_instance (Singleton.register_clean_up (Singleton.store_instance raced)))
unfolding Singleton.test_and_set Singleton.first_test Singleton.no_instance Singleton.store_instance
    Singleton.register_clean_up
cleaned_up =
    Singleton.later
      (Singleton.later (Singleton.later race (Singleton.stores (omega arith)))
        (Singleton.registers (omega arith)))
      (Singleton.deletes (omega arith))

Reach-IsOnce_example :
    Singleton.IsOnce
      (Singleton.delete_instance (Singleton.register_clean_up (Singleton.store_instance raced)))
Reach-IsOnce_example = Singleton.Reach-IsOnce cleaned_up

spinning_ends_example :
    ((Singleton.spin raced).returned ≡ raced.returned + 1)
    ⊎ ((0 < raced.creating)
        × ((Singleton.spin (Singleton.store_instance raced)).returned ≡ raced.returned + 1))
unfolding Singleton.test_and_set Singleton.first_test Singleton.no_instance
spinning_ends_example = Singleton.spinning_ends race (omega arith)

-- Two tasks that count up, at the addresses 16 and 32.
abbrev counting : ℕ → Task ℕ
counting address = record { address = address; function = λ n. (0, n + 1); priority = 0 }

bad_apple_first_example :
    task_despacher 8 (bad_apple 48 ∷ counting 16 ∷ counting 32 ∷ []) 5
    ≡ done (record {
      left = counting 16 ∷ counting 32 ∷ [];
      finished = record { address = 48; status = bad_apple_status } ∷ [];
      world = 5;
      stopped = true;
    })
bad_apple_first_example = bad_apple_first 48 7 (counting 16 ∷ counting 32 ∷ []) 5 (omega arith)
