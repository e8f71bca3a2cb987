-- ===== src/Examples/Pools.antt =====
-- A write whose two jobs are run by a pool of one thread, and a relay whose `sendmsg` fails.
use private_distributed_clou.Prelude.{
  ℕ, ◌+◌, ◌≤◌, ◌≡◌, ◌⊎◌, refl, inl, inr, Bool, List, [], ◌∷◌, map, arith, count,
}
use private_distributed_clou.Run.{Run, done}
use private_distributed_clou.Command.{Sent}
use private_distributed_clou.Host.{
  create_host, job_info, distribute_loop, distribute, num_of_iterations,
}
use private_distributed_clou.Host.Placement.{fragment_message}
use private_distributed_clou.Host.Pooled.{job_function}
use private_distributed_clou.Dispatcher.{command_factory}
use private_distributed_clou.ThreadPool.Workers
use private_distributed_clou.ThreadPool.Workers.{
  Pool, new_pool, submit, call_dequeue, start_task, handed_in,
}
use private_distributed_clou.ThreadPool.Drains.{GoesOn, called, Runs, at_end, step, work_left}
use private_distributed_clou.Cloud.{Devices, deliver, disk, flat_write}
use private_distributed_clou.Cloud.Pooled.{write_pooled}
use private_distributed_clou.Nbd.{NbdMessage}
use private_distributed_clou.ThreadPool.Tally.{tally}
use private_distributed_clou.Server.Pooled.{job_functions, due_messages, requests_pooled}
use private_distributed_clou.Kernels.{linux_abi}
use private_distributed_clou.Relay.Pooled.{no_apple}
use private_distributed_clou.Examples.Clouds.{
  length-tabulate, in_memory, wires, wires-IsWired, writer, writer-IsAligned, all_sent,
}

abbrev job : ℕ → Run (List Sent) → ℕ × Run (List Sent)
job j = job_function (command_factory linux_abi) all_sent writer (job_info writer wires j (3 + j))

-- `Distribute` has handed in its jobs.
abbrev distributed : Pool (Run (List Sent))
distributed = submit 32 (job 1) (submit 16 (job 0) (new_pool 1 (done [])))

distributed-Reach : Workers.Reach no_apple 1 (done []) distributed
distributed-Reach =
    Workers.later (Workers.later Workers.start (Workers.submits 16 (job 0) refl))
      (Workers.submits 32 (job 1) refl)

distributed-jobs :
    handed_in distributed-Reach
    ≡ map (job_function (command_factory linux_abi) all_sent writer) (distribute writer wires)
unfolding handed_in distributed-Reach distribute distribute_loop num_of_iterations
distributed-jobs = refl

-- The worker takes a job.
abbrev taken : Pool (Run (List Sent))
taken = call_dequeue distributed

taken-Runs : Runs no_apple 1 taken distributed
unfolding submit new_pool
taken-Runs = step (called (omega arith)) at_end

write_pooled_example :
    (1 ≤ work_left no_apple 1 distributed)
    × (((q' : Pool (Run (List Sent))) × GoesOn no_apple 1 taken q')
        ⊎ ((taken.stopped ≡ 1)
            ⊎ ((ks : List ℕ) × (taken.world
                  ≡ done (map (fragment_message linux_abi writer wires) ks))
                × ((order : List ℕ)
                    → ((k : ℕ) → count k order ≡ count k ks)
                    → (devices : Devices in_memory) (a : ℕ)
                    → disk in_memory wires
                        (deliver in_memory
                          (map (fragment_message linux_abi writer wires) order)
                          devices)
                        a
                      ≡ flat_write writer.nbq_req (disk in_memory wires devices) a))))
unfolding taken-Runs
write_pooled_example =
    write_pooled in_memory all_sent writer wires (record { known = inr refl; small = omega arith })
      wires-IsWired writer-IsAligned refl (length-tabulate 2048 (λ i. i)) distributed-Reach
      distributed-jobs taken-Runs

-- Two requests, of two fragments and of one, whose jobs are handed in.
abbrev reader_of_one : NbdMessage
reader_of_one = record {
  nbd_req = record { req_type = 0; data_len = 1024; offset = 2048; data_buf = [] };
  nbd_sock = 3;
  reply = record { magic = 0; error = 0; handle = 9 ∷ [] };
}

abbrev both_requests : List NbdMessage
both_requests = writer.message ∷ reader_of_one ∷ []

abbrev job_of : ℕ → NbdMessage → ℕ → ℕ → Run (List Sent) → ℕ × Run (List Sent)
job_of uid m j first =
    let host = (create_host uid m).0 in
    job_function (command_factory linux_abi) all_sent host (job_info host wires j first)

abbrev all_in : Pool (Run (List Sent))
all_in = submit 48 (job_of 1 reader_of_one 0 2) (
    submit 32 (job_of 0 writer.message 1 4)
      (submit 16 (job_of 0 writer.message 0 3) (new_pool 1 (done []))))

all_in-Reach : Workers.Reach no_apple 1 (done []) all_in
all_in-Reach =
    Workers.later
      (Workers.later
        (Workers.later Workers.start (Workers.submits 16 (job_of 0 writer.message 0 3) refl))
        (Workers.submits 32 (job_of 0 writer.message 1 4) refl))
      (Workers.submits 48 (job_of 1 reader_of_one 0 2) refl)

all_in-jobs : handed_in all_in-Reach ≡ job_functions linux_abi all_sent wires 0 both_requests
unfolding handed_in all_in-Reach job_functions distribute distribute_loop num_of_iterations
    create_host
all_in-jobs = refl

requests_pooled_example :
    (sent : List Sent) × (all_in.world ≡ done sent)
    × ((q : Sent → Bool)
        → tally q sent ≤ tally q (due_messages linux_abi all_sent wires 0 both_requests))
    × (all_in.queue.items ≡ []
        → all_in.running ≡ []
        → (q : Sent → Bool)
        → tally q sent ≡ tally q (due_messages linux_abi all_sent wires 0 both_requests))
requests_pooled_example =
    requests_pooled linux_abi all_sent wires 0 both_requests
      (
        record { known = inr refl; small = omega arith },
        (record { known = inl refl; small = omega arith }, tt),
      )
      all_in-Reach all_in-jobs
