-- ===== src/Cloud/Pooled.antt =====
-- A write whose jobs are run by the thread pool, up to the disk that the devices make up.
use private_distributed_clou.Prelude.{
  ℕ, ◌≤◌, ◌≡◌, ◌∙◌, ◌⊎◌, inl, inr, Bool, List, [], map, length, count,
}
use private_distributed_clou.Run.{Run, done}
use private_distributed_clou.Nbd.{NbdAbi}
use private_distributed_clou.Command.{Sent, SendFails}
use private_distributed_clou.Host.{RequestHost, distribute}
use private_distributed_clou.Host.Placement.{IsServed, fragment_message}
use private_distributed_clou.Host.Pooled.{job_function, distribute_pooled}
use private_distributed_clou.Dispatcher.{command_factory}
use private_distributed_clou.ThreadPool.Workers.{Pool, Reach, handed_in}
use private_distributed_clou.ThreadPool.Drains.{
  GoesOn, Runs, steps, work_left, Runs-Reach, pool_drains,
}
use private_distributed_clou.Cloud.{
  IotDevice, IsWired, IsAligned, Devices, deliver, disk, flat_write,
}
use private_distributed_clou.Cloud.Writes.{deliver_all}

-- A write of whole fragments to devices with room for them, whose jobs clients have handed to a pool of any number of
-- workers, with nothing else but tasks of `ShutDown`, in any interleaving so far. However the workers are
-- scheduled from then on, they take at most `work_left` steps, and after any number of these some worker or
-- notification can go on, or all workers have stopped, or the write is out: in whatever order the messages that were
-- handed to `sendmsg` reach the devices, the disk is the old one with the data of the request at its offset.
pub write_pooled :
    {abi : NbdAbi} (device : IotDevice abi) (fails : SendFails) (host : RequestHost)
    (socket : ℕ → ℕ) {apple : ℕ → Bool} {num_of_threads : ℕ} {p q : Pool (Run (List Sent))}
    → IsServed abi host.nbq_req
    → IsWired socket
    → IsAligned device host.nbq_req
    → host.nbq_req.req_type ≡ abi.cmd_write
    → length host.nbq_req.data_buf ≡ host.nbq_req.data_len
    → (r : Reach apple num_of_threads (done []) p)
    → handed_in r ≡ map (job_function (command_factory abi) fails host) (distribute host socket)
    → (run : Runs apple num_of_threads q p)
    → (steps apple num_of_threads run ≤ work_left apple num_of_threads p)
      × (((q' : Pool (Run (List Sent))) × GoesOn apple num_of_threads q q')
          ⊎ ((q.stopped ≡ num_of_threads)
              ⊎ ((ks : List ℕ) × (q.world ≡ done (map (fragment_message abi host socket) ks))
                  × ((order : List ℕ)
                      → ((k : ℕ) → count k order ≡ count k ks)
                      → (devices : Devices device) (a : ℕ)
                      → disk device socket
                          (deliver device (map (fragment_message abi host socket) order) devices)
                          a
                        ≡ flat_write host.nbq_req (disk device socket devices) a))))
write_pooled {abi} device fails host socket {q = q} served wired aligned e size r these run =
    let (there, _, _, funcs) = Runs-Reach _ _ r run in
    let (few, state) = pool_drains _ _ r run in
    let (ks, world, most, all) =
      distribute_pooled abi fails host socket served there (funcs ∙ these) in
    (
      few,
      elim state [
        | inl goes_on ↦ inl goes_on
        | inr (inr stopped) ↦ inr (inl stopped)
        | inr (inl drained) ↦ inr (
            inr (
              ks,
              world,
              λ order same devices a.
                  deliver_all device host socket wired aligned order devices a e size
                    (λ k. same k ∙ all drained.0 drained.1 k),
            ))
      ],
    )
