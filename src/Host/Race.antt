-- ===== src/Host/Race.antt =====
-- RequestHost.cpp with its threads: the jobs of one request run in the thread pool, while the reactor takes the
-- replies. A worker that has taken a job reads the request through the raw pointer `this` before each round of its
-- loop and once more behind the last one; the last reply frees the request.
use private_distributed_clou.Prelude.{
  ℕ, zero, suc, ◌+◌, ◌-◌, ◌*◌, ◌/◌, ◌%◌, ◌≤◌, ◌<◌, ◌≡◌, refl, Bool, true, false, ◌&&◌, ◌||◌, ltb,
  leb, ◌==◌, if◌then◌else◌, arith,
}
use private_distributed_clou.Host.{num_of_iot}

-- All numbers below `n` have the property.
abbrev all_below : ℕ → (ℕ → Bool) → Bool
all_below zero p = true
all_below (suc n) p = p n && all_below n p

abbrev set_at : {A : Type 0} → (ℕ → A) → ℕ → A → ℕ → A
set_at f i v j = if i == j then v else f j

-- The jobs of a request of `n` fragments.
abbrev job_count : ℕ → ℕ
job_count n = if ltb n num_of_iot then n else num_of_iot

-- A request under way: which jobs a worker has taken, and which of these have left their loop; for each job the fragment
-- that it tests next (`m_fragmentUid`); how many workers are in a job of the request; the fragments that were sent
-- and that were answered; whether `NbdRequestDone` has freed the request.
pub record Exchange : Type 0 where
  pub taken : ℕ → Bool
  pub ended : ℕ → Bool
  pub next : ℕ → ℕ
  pub busy : ℕ
  pub sent : ℕ → Bool
  pub answered : ℕ → Bool
  pub freed : Bool

-- Behind `Distribute`: the jobs are in the queue.
unfoldable pub new_exchange : Exchange
new_exchange = record {
  taken = λ j. false;
  ended = λ j. false;
  next = λ j. j;
  busy = 0;
  sent = λ i. false;
  answered = λ i. false;
  freed = false;
}

-- A worker calls `SendMsgWrapper` for job `j`.
unfoldable pub take_job : ℕ → Exchange → Exchange
take_job j x = record x { taken = set_at x.taken j true; busy = x.busy + 1 }

-- The test of the loop of job `j` and its round, where the test holds; and where it does not.
unfoldable pub send_next : ℕ → Exchange → Exchange
send_next j x = record x {
  sent = set_at x.sent (x.next j) true;
  next = set_at x.next j (x.next j + num_of_iot);
}

unfoldable pub leave_loop : ℕ → Exchange → Exchange
leave_loop j x = record x { ended = set_at x.ended j true; busy = x.busy - 1 }

-- `ReadReaply` for fragment `k` of `n`.
unfoldable pub take_answer : ℕ → ℕ → Exchange → Exchange
take_answer n k x =
    let answered = set_at x.answered k true in
    record x { answered = answered; freed = all_below n answered }

-- The steps that read no freed memory, for a request of `n` fragments and a pool of `num_of_threads` workers.
pub data Step (num_of_threads n : ℕ) (x : Exchange) : Exchange → Type 0 where
  takes :
      (j : ℕ)
      → j < job_count n
      → x.taken j ≡ false
      → x.busy < num_of_threads
      → Step num_of_threads n x (take_job j x)
  sends :
      (j : ℕ)
      → x.taken j ≡ true
      → x.ended j ≡ false
      → x.freed ≡ false
      → x.next j < n
      → Step num_of_threads n x (send_next j x)
  leaves :
      (j : ℕ)
      → x.taken j ≡ true
      → x.ended j ≡ false
      → x.freed ≡ false
      → n ≤ x.next j
      → Step num_of_threads n x (leave_loop j x)
  answers :
      (k : ℕ)
      → x.sent k ≡ true
      → x.answered k ≡ false
      → x.freed ≡ false
      → Step num_of_threads n x (take_answer n k x)

pub data Reach (num_of_threads n : ℕ) : Exchange → Type 0 where
  start : Reach num_of_threads n new_exchange
  later :
      {x y : Exchange}
      → Reach num_of_threads n x
      → Step num_of_threads n x y
      → Reach num_of_threads n y

-- The jobs before `j` have ended, job `j` is the only one with a worker and tests fragment `i` next, and no reply has come.
record AtJob (n j i : ℕ) (x : Exchange) : Type 0 where
  at : x.next j ≡ i
  has_sent : (k : ℕ) → x.sent k ≡ (ltb k n && (ltb (k % 8) j || (k % 8 == j && ltb k i)))
  own_taken : x.taken j ≡ true
  own_ended : x.ended j ≡ false
  later_next : (l : ℕ) → j < l → x.next l ≡ l
  later_taken : (l : ℕ) → j < l → x.taken l ≡ false
  later_ended : (l : ℕ) → j < l → x.ended l ≡ false
  one_busy : x.busy ≡ 1
  unanswered : (k : ℕ) → x.answered k ≡ false
  alive : x.freed ≡ false

module _ (num_of_threads n : ℕ) (staffed : 0 < num_of_threads) where
  -- A job goes on by `r` rounds.
  run_rounds :
      (j r : ℕ)
      → j < 8
      → (x : Exchange) × Reach num_of_threads n x × AtJob n j j x
      → j + r * 8 < n + 8
      → (x : Exchange) × Reach num_of_threads n x × AtJob n j (j + r * 8) x
  unfolding send_next
  run_rounds j zero small (x, r, v) le = (
    x,
    r,
    record {
      at = omega (arith, v.at);
      has_sent = λ k. ground (arith, v.has_sent k);
      own_taken = v.own_taken;
      own_ended = v.own_ended;
      later_next = v.later_next;
      later_taken = v.later_taken;
      later_ended = v.later_ended;
      one_busy = v.one_busy;
      unanswered = v.unanswered;
      alive = v.alive;
    },
  )
  run_rounds j (suc rounds) small from le =
      let (x, r, v) = run_rounds j rounds small from (omega (arith, le)) in
      (
        send_next j x,
        later r (sends j v.own_taken v.own_ended v.alive (omega (arith, v.at, le))),
        record {
          at = ground (arith, v.at);
          has_sent = λ k. ground (arith, v.has_sent k, v.at, le, small);
          own_taken = v.own_taken;
          own_ended = v.own_ended;
          later_next = λ l lt. ground (arith, v.later_next l lt, lt);
          later_taken = v.later_taken;
          later_ended = v.later_ended;
          one_busy = v.one_busy;
          unanswered = v.unanswered;
          alive = v.alive;
        },
      )

  -- The jobs run one after the other, up to the start of job `j`.
  run_jobs : (j : ℕ) → j < job_count n → (x : Exchange) × Reach num_of_threads n x × AtJob n j j x
  unfolding new_exchange take_job leave_loop
  run_jobs zero lt = (
    take_job 0 new_exchange,
    later start (takes 0 lt refl staffed),
    record {
      at = refl;
      has_sent = λ k. ground arith;
      own_taken = ground arith;
      own_ended = refl;
      later_next = λ l less. refl;
      later_taken = λ l less. ground (arith, less);
      later_ended = λ l less. refl;
      one_busy = omega arith;
      unanswered = λ k. refl;
      alive = refl;
    },
  )
  run_jobs (suc j) lt =
      let below : suc j < 8 = ground (arith, lt) in
      let within : suc j < n = ground (arith, lt) in
      let (x, r, v) =
        run_rounds j ((n + 7 - j) / 8) (omega (arith, below)) (run_jobs j (ground (arith, lt)))
          (omega (arith, within)) in
      let left = later r (leaves j v.own_taken v.own_ended v.alive (omega (arith, v.at, within))) in
      (
        take_job (suc j) (leave_loop j x),
        later left (
            takes (suc j) lt (v.later_taken (suc j) (omega arith))
              (omega (arith, v.one_busy, staffed))),
        record {
          at = v.later_next (suc j) (omega arith);
          has_sent = λ k. ground (arith, v.has_sent k, within);
          own_taken = ground arith;
          own_ended = ground (arith, v.later_ended (suc j));
          later_next = λ l less. v.later_next l (omega (arith, less));
          later_taken = λ l less. ground (arith, v.later_taken l, less);
          later_ended = λ l less. ground (arith, v.later_ended l, less);
          one_busy = omega (arith, v.one_busy);
          unanswered = v.unanswered;
          alive = v.alive;
        },
      )

-- All fragments were sent and those below `m` answered, and a worker is in the loop of job `j`.
record AnsweredBelow (n m j : ℕ) (x : Exchange) : Type 0 where
  sent_all : (i : ℕ) → x.sent i ≡ ltb i n
  answered_below : (i : ℕ) → x.answered i ≡ ltb i m
  own_taken : x.taken j ≡ true
  own_ended : x.ended j ≡ false
  freed_last : x.freed ≡ leb n m
