-- ===== src/Relay/Pooled.antt =====
-- atlas_ThreadPool.cpp: what its pool sends.
use private_distributed_clou.Prelude.{
  ℕ, ◌+◌, ◌≤◌, ◌≡◌, ◌⊎◌, inl, inr, ap, Bool, true, false, some, List, length, arith, ℕ_discrete,
}
use mathlib.Core.Path.{subst}
use private_distributed_clou.Run.{Run, done}
use private_distributed_clou.Assoc
use private_distributed_clou.Net.{Kernel}
use private_distributed_clou.Nbd.{NbdAbi, NbdMessage}
use private_distributed_clou.BtsQueue
use private_distributed_clou.BtsQueue.{Reach-IsAwake}
use private_distributed_clou.ThreadPool.{task_less}
use private_distributed_clou.ThreadPool.Tally.{total}
use private_distributed_clou.ThreadPool.Moves.{Works-Move}
use private_distributed_clou.ThreadPool.Sound.{
  IsSound, submit-IsSound, Move-IsSound, world-IsSound, new_pool-IsSound,
}
use private_distributed_clou.ThreadPool.Workers.{Pool, new_pool, Works-queue, submit-queue}
use private_distributed_clou.ThreadPool.Drains.{
  GoesOn, Runs, steps, at_end, step, work_left, GoesOn-Works, Runs-work_left, going_on_or,
  queue_drained,
}
use private_distributed_clou.Relay.Waiting.{waiting, reads_at, Reach-IsSafe, read_in, replied_out}
use private_distributed_clou.Relay.Pool.{
  SendCall, Memory, RelayPool, new_relay, request_in, reply_out, Reach, reads, answers, works,
  start, later,
}

-- No task is one of `ShutDown`.
abbrev pub no_apple : ℕ → Bool
no_apple address = false

module _ (abi : NbdAbi) (sendmsg : SendCall) (k : Kernel) (malloced : ℕ → List ℕ)
    (socfd : ℕ → ℕ) where
  -- The pool of the relay is one of ThreadPool: its workers are at their places, and its queue makes the steps of
  -- a queue.
  abbrev IsPool : ℕ → Pool (Run Memory) → Type 0
  IsPool num_of_threads p = IsSound no_apple num_of_threads p × BtsQueue.Reach task_less p.queue

  pub Reach-IsPool :
      {num_of_threads : ℕ} {io : k.World} {s : RelayPool k}
      → Reach abi k malloced sendmsg socfd num_of_threads io s
      → IsPool num_of_threads s.tp
  unfolding new_relay new_pool request_in reply_out
  Reach-IsPool start = (new_pool-IsSound no_apple _ _, BtsQueue.start)
  Reach-IsPool {num_of_threads} (later {s} r (reads address task mem t known free e)) =
      let (x, same) = read_in abi sendmsg k malloced socfd address task mem s t known e in
      let (sound, queue) = Reach-IsPool r in
      subst (λ u. IsPool num_of_threads u.tp) same
        (
          submit-IsSound no_apple num_of_threads task _ _ (λ apple w. cc)
              (world-IsSound no_apple num_of_threads s.tp _ sound),
          submit-queue task _ _ queue,
        )
  Reach-IsPool {num_of_threads} (later {s} r (answers address mem t known named handed e)) =
      let (io, same) = replied_out abi sendmsg k malloced socfd address mem s t known named e in
      let (sound, queue) = Reach-IsPool r in
      subst (λ u. IsPool num_of_threads u.tp) same
        (world-IsSound no_apple num_of_threads s.tp _ sound, queue)
  Reach-IsPool {num_of_threads} (later r (works tp move)) =
      let (sound, queue) = Reach-IsPool r in
      (Move-IsSound no_apple num_of_threads (Works-Move move) sound, Works-queue move queue)

  Runs-Reach :
      {num_of_threads : ℕ} {io io' : k.World} {q p : Pool (Run Memory)}
      → Runs no_apple num_of_threads q p
      → Reach abi k malloced sendmsg socfd num_of_threads io (record { tp = p; io = io' })
      → Reach abi k malloced sendmsg socfd num_of_threads io (record { tp = q; io = io' })
  Runs-Reach at_end r = r
  Runs-Reach {num_of_threads} (step g run) r =
      Runs-Reach run (later r (works _ (GoesOn-Works no_apple num_of_threads g)))

  -- In every state that the reactor and its pool of any number of threads reach, in any interleaving in which `malloc`
  -- gives free addresses and the device replies only to messages that it was sent, and however the workers are
  -- scheduled from there while nothing comes: no worker has read a request that is not in memory, and nothing else has
  -- faulted; each request in memory whose message was not handed to `sendmsg` has one task that reads it, no
  -- task reads anything else, and as many messages were handed to `sendmsg` as tasks have ended; the workers take at most `work_left` steps, and after any number of these one of them or a
  -- notification can go on, or the messages of all requests in memory were handed to `sendmsg`, or all
  -- workers have stopped.
  pub relay_sends :
      {num_of_threads : ℕ} {io : k.World} {s : RelayPool k} {q : Pool (Run Memory)}
      → Reach abi k malloced sendmsg socfd num_of_threads io s
      → (run : Runs no_apple num_of_threads q s.tp)
      → (steps no_apple num_of_threads run ≤ work_left no_apple num_of_threads s.tp)
        × (mem : Memory) × (q.world ≡ done mem)
        × ((address : ℕ)
            → total (reads_at address) q.queue.items + total (reads_at address) q.running
              ≡ waiting mem address)
        × (length mem.sent ≡ length q.finished)
        × (((q' : Pool (Run Memory)) × GoesOn no_apple num_of_threads q q')
            ⊎ (((address : ℕ) (m : NbdMessage)
                  → Assoc.find ℕ_discrete address mem.pending ≡ some m
                  → mem.handed address ≡ true)
                ⊎ (q.stopped ≡ num_of_threads)))
  relay_sends {num_of_threads} {q = q} r run =
      let there = Runs-Reach run r in
      let v = Reach-IsSafe abi sendmsg k malloced socfd there in
      let (sound, queue) = Reach-IsPool there in
      let state =
        going_on_or no_apple num_of_threads q
          (queue_drained no_apple num_of_threads q sound (Reach-IsAwake task_less queue)) in
      (
        omega (arith, Runs-work_left no_apple num_of_threads run),
        v.mem,
        v.world,
        v.balance,
        v.each,
        elim state [
          | inl goes_on ↦ inl goes_on
          | inr (inr stopped) ↦ inr (inr stopped)
          | inr (inl drained) ↦ inr (
              inl (λ address m found. ground (
                arith,
                found,
                v.balance address,
                ap (total (reads_at address)) drained.0,
                ap (total (reads_at address)) drained.1,
              )))
        ],
      )
