-- ===== src/Semaphore.antt =====
-- final_project/framework/src/semaphore/semaphore.hpp and semaphore.cpp: a counting semaphore over a mutex
-- and a condition variable. The mutex is held from the entry of `Wait` and `Post` on and given up only by
-- `m_cv.wait`, so that what lies between is one step. The threads inside `Wait` have no names: the state
-- counts them by where they stand.
use private_distributed_clou.Prelude.{ℕ, ◌+◌, ◌-◌, ◌≤◌, ◌<◌, ◌≡◌, ◌==◌, ltb, if◌then◌else◌, arith}

pub record Semaphore : Type 0 where
  pub count : ℕ  -- m_count
  pub asleep : ℕ  -- threads inside `m_cv.wait`
  pub woken : ℕ  -- threads that left the wait and want the mutex back
  pub passed : ℕ  -- calls of `Wait` that have returned
  pub posts : ℕ  -- calls of `Post` that have returned

-- `Semaphore(count)`, for a count that is not negative.
unfoldable pub new_semaphore : ℕ → Semaphore
new_semaphore count = record { count = count; asleep = 0; woken = 0; passed = 0; posts = 0 }

-- A call of `Wait` up to its return or its first sleep.
unfoldable pub wait : Semaphore → Semaphore
wait s =
    if s.count == 0
    then record s { asleep = s.asleep + 1 }
    else record s { count = s.count - 1; passed = s.passed + 1 }

-- A woken thread tests again.
unfoldable pub retry : Semaphore → Semaphore
retry s =
    if s.count == 0
    then record s { asleep = s.asleep + 1; woken = s.woken - 1 }
    else record s { count = s.count - 1; woken = s.woken - 1; passed = s.passed + 1 }

-- `notify_one()` wakes one sleeper, if there is one.
unfoldable pub notify_one : Semaphore → Semaphore
notify_one s = if ltb 0 s.asleep then record s { asleep = s.asleep - 1; woken = s.woken + 1 } else s

-- `Post()`.
unfoldable pub post : Semaphore → Semaphore
unfolding notify_one
post s = notify_one (record s { count = s.count + 1; posts = s.posts + 1 })

-- The steps of any number of threads. A wait may also end with no notification.
pub data Step (s : Semaphore) : Semaphore → Type 0 where
  waits : Step s (wait s)
  posted : Step s (post s)
  retries : 0 < s.woken → Step s (retry s)
  spurious : 0 < s.asleep → Step s (record s { asleep = s.asleep - 1; woken = s.woken + 1 })

pub data Reach (initial : ℕ) : Semaphore → Type 0 where
  start : Reach initial (new_semaphore initial)
  later : {s t : Semaphore} → Reach initial s → Step s t → Reach initial t

-- Each return of `Wait` took one unit; and while threads sleep, every unit at hand has a woken thread
-- that may take it.
pub record IsValid (initial : ℕ) (s : Semaphore) : Type 0 where
  pub conserved : s.count + s.passed ≡ initial + s.posts
  pub awake : 0 < s.asleep → s.count ≤ s.woken

Step-IsValid : {initial : ℕ} {s t : Semaphore} → Step s t → IsValid initial s → IsValid initial t
unfolding wait post retry
Step-IsValid waits v = ground arith
Step-IsValid posted v = ground arith
Step-IsValid (retries some_woken) v = ground arith
Step-IsValid (spurious some_asleep) v = ground arith

-- In every state that any interleaving reaches, the units at hand and the returns of `Wait` together are
-- the initial count and the returns of `Post`, and no wakeup is lost: while threads sleep, at least as
-- many woken threads as there are units are about to test again.
pub Reach-IsValid : {initial : ℕ} {s : Semaphore} → Reach initial s → IsValid initial s
unfolding new_semaphore
Reach-IsValid {initial} start = ground arith
Reach-IsValid (later r st) = Step-IsValid st (Reach-IsValid r)

-- If a thread sleeps while a unit is at hand, some woken thread can take its next step, and this step
-- returns from `Wait`.
pub no_deadlock :
    {initial : ℕ} {s : Semaphore}
    → Reach initial s
    → 0 < s.count
    → 0 < s.asleep
    → Step s (retry s) × ((retry s).passed ≡ s.passed + 1)
unfolding retry
no_deadlock r unit sleeper =
    let v = Reach-IsValid r in (retries (omega (arith, v.awake)), ground arith)
