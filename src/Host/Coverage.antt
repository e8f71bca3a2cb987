-- ===== src/Host/Coverage.antt =====
-- The jobs of a request together: each fragment is sent once.
use private_distributed_clou.Prelude.{
  ℕ, zero, suc, ◌+◌, ◌-◌, ◌*◌, ◌/◌, ◌%◌, ◌≤◌, ◌≡◌, refl, ◌&&◌, List, [], ◌++◌, map, ltb, leb, ◌==◌,
  if◌then◌else◌, u32, arith, count, count-append,
}
use mathlib.Core.List.{map-append}
use private_distributed_clou.Run.{done}
use private_distributed_clou.Nbd.{NbdAbi, NbdRequest}
use private_distributed_clou.Command.{Sent, SendFails}
use private_distributed_clou.Host.{
  RequestHost, frag_size, fragment_count, distribute_loop, num_of_iterations, distribute, run_jobs,
}
use private_distributed_clou.Host.Placement.{
  IsServed, first_fragment, fragment_message, stride, send_msg_wrapper_lem,
}
use private_distributed_clou.Dispatcher.{command_factory}

count-stride :
    (k rounds i : ℕ)
    → count k (stride rounds i)
      ≡ (if leb i k && ((k - i) % 8 == 0) && ltb k (i + 8 * rounds) then 1 else 0)
unfolding count stride
count-stride k zero i = ground arith
count-stride k (suc rounds) i = ground (arith, count-stride k rounds (i + 8))

-- The fragments of the jobs `j`, `j + 1`, …, of which there are `rounds`, in a request of `n`.
abbrev pub all_strides : ℕ → ℕ → ℕ → List ℕ
all_strides n zero j = []
all_strides n (suc rounds) j = stride ((n + 7 - j) / 8) j ++ all_strides n rounds (j + 1)

count-all_strides :
    (k n rounds j : ℕ)
    → j + rounds ≤ 8
    → count k (all_strides n rounds j)
      ≡ (if leb j (k % 8) && ltb (k % 8) (j + rounds) && ltb k n then 1 else 0)
unfolding count
count-all_strides k n zero j h = ground arith
count-all_strides k n (suc rounds) j h = ground (
  arith,
  count-append k (stride ((n + 7 - j) / 8) j) (all_strides n rounds (j + 1)),
  count-stride k ((n + 7 - j) / 8) j,
  count-all_strides k n rounds (j + 1),
)

module _ (abi : NbdAbi) (fails : SendFails) (host : RequestHost) (socket : ℕ → ℕ) where
  abbrev messages : List ℕ → List Sent
  messages = map (fragment_message abi host socket)

  run_jobs_lem :
      (rounds j : ℕ)
      → IsServed abi host.nbq_req
      → j + rounds ≤ fragment_count host.nbq_req
      → run_jobs
          (command_factory abi)
          fails
          host
          (distribute_loop host socket rounds j (first_fragment host + j))
        ≡ done (messages (all_strides (fragment_count host.nbq_req) rounds j))
  unfolding run_jobs distribute_loop
  run_jobs_lem zero j served h = refl
  run_jobs_lem (suc rounds) j served h =
      let next : u32 (first_fragment host + j + 1) ≡ first_fragment host + (j + 1) =
        omega (arith, served.small) in
      rw (
        send_msg_wrapper_lem abi fails host socket j (omega arith) served,
        next,
        run_jobs_lem rounds (j + 1) served (omega arith),
        map-append,
      )

  pub num_of_iterations-le :
      (r : NbdRequest)
      → (0 + num_of_iterations r ≤ fragment_count r) × (0 + num_of_iterations r ≤ 8)
  unfolding num_of_iterations
  num_of_iterations-le r = ground arith

  pub covered :
      (k : ℕ)
      → count k (all_strides (fragment_count host.nbq_req) (num_of_iterations host.nbq_req) 0)
        ≡ (if ltb k (fragment_count host.nbq_req) then 1 else 0)
  unfolding num_of_iterations
  covered k = ground (
    arith,
    num_of_iterations-le host.nbq_req,
    count-all_strides k (fragment_count host.nbq_req) (num_of_iterations host.nbq_req) 0,
  )

  -- For a read or a write within the first 2 ^ 32 bytes, all jobs of `Distribute` return, and together
  -- they hand to `sendmsg` the message of each fragment of the request once, and nothing else: each on
  -- the socket of device `(first + k) % 8`, at the address `128 * (first + k)` of that device.
  pub distribute_covers :
      IsServed abi host.nbq_req
      → (ks : List ℕ) × (run_jobs (command_factory abi) fails host (distribute host socket)
          ≡ done (map (fragment_message abi host socket) ks))
        × ((k : ℕ) → count k ks ≡ (if ltb k (fragment_count host.nbq_req) then 1 else 0))
  unfolding distribute
  distribute_covers served = (
    all_strides (fragment_count host.nbq_req) (num_of_iterations host.nbq_req) 0,
    (let start : u32 (host.nbq_req.offset / frag_size) ≡ first_fragment host + 0 =
          omega (arith, served.small) in
        rw start (
          run_jobs_lem (num_of_iterations host.nbq_req) 0 served
            (num_of_iterations-le host.nbq_req).0)),
    λ k. covered k,
  )
