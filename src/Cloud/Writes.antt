-- ===== src/Cloud/Writes.antt =====
-- A write to the IoT devices is a write to one disk.
use private_distributed_clou.Prelude.{
  ℕ, ◌+◌, ◌-◌, ◌*◌, ◌/◌, ◌%◌, ◌≤◌, ◌<◌, ◌≡◌, ◌∙◌, ◌&&◌, List, [], ◌∷◌, map, ltb, leb, ◌==◌,
  if◌then◌else◌, arith, count, length, ℕ_discrete,
}
use private_distributed_clou.Run.{done}
use private_distributed_clou.Memory.{get_elem?, length-slice, get_elem?-slice}
use private_distributed_clou.Nbd.{NbdAbi}
use private_distributed_clou.Command.{SendFails}
use private_distributed_clou.Host.{
  RequestHost, frag_size, num_of_iot, fragment_count, distribute, run_jobs,
}
use private_distributed_clou.Host.Placement.{
  IsServed, first_fragment, fragment_header, fragment_data, fragment_message,
}
use private_distributed_clou.Host.Coverage.{distribute_covers}
use private_distributed_clou.Dispatcher.{command_factory}
use private_distributed_clou.Cloud.{
  IotDevice, IsWired, IsAligned, Devices, arrive, deliver, disk, flat_write,
}

module _ {abi : NbdAbi} (device : IotDevice abi) (host : RequestHost) (socket : ℕ → ℕ)
    (wired : IsWired socket) (aligned : IsAligned device host.nbq_req) where
  -- The byte that a device has behind the message of fragment `k` of a write.
  stored :
      (k : ℕ) (s : device.State) (f i : ℕ)
      → host.nbq_req.req_type ≡ abi.cmd_write
      → k < fragment_count host.nbq_req
      → host.nbq_req.data_len ≤ length host.nbq_req.data_buf
      → f % num_of_iot ≡ (first_fragment host + k) % num_of_iot
      → i < frag_size
      → device.byte (device.receive (fragment_message abi host socket k).pieces s) (f * 128 + i) ≡ (
          if f == first_fragment host + k
          then get_elem? host.nbq_req.data_buf (k * frag_size + i)
          else device.byte s (f * 128 + i))
  stored k s f i e lt fits same small =
      let size : length (fragment_data host k) ≡ frag_size =
        omega (arith, length-slice (k * frag_size) frag_size host.nbq_req.data_buf) in
      ground (
        arith,
        device.receive_write (fragment_header host k) (fragment_data host k) s (f * 128 + i) e size
            (omega (arith, aligned.room)),
        get_elem?-slice (k * frag_size) frag_size host.nbq_req.data_buf
            (f * 128 + i - (first_fragment host + k) * 128),
      )

  arrive-write :
      (k : ℕ) (devices : Devices device) (a : ℕ)
      → host.nbq_req.req_type ≡ abi.cmd_write
      → k < fragment_count host.nbq_req
      → host.nbq_req.data_len ≤ length host.nbq_req.data_buf
      → disk device socket (arrive device (fragment_message abi host socket k) devices) a ≡ (
          if a / frag_size == first_fragment host + k
          then get_elem? host.nbq_req.data_buf (k * frag_size + a % frag_size)
          else disk device socket devices a)
  unfolding disk arrive
  arrive-write k devices a e lt fits =
      let f = a / frag_size in
      let fd = socket (f % num_of_iot + 1) in
      elim (ℕ_discrete (f % num_of_iot) ((first_fragment host + k) % num_of_iot)) [
        | yes same ↦
            ground
              (arith, same, stored k (devices fd) f (a % frag_size) e lt fits same (omega arith))
        | no other ↦ ground (
          arith,
          other,
          wired.apart ((first_fragment host + k) % num_of_iot) (f % num_of_iot) (omega arith)
              (omega arith),
        )
      ]

  deliver-write :
      (order : List ℕ) (devices : Devices device) (a : ℕ)
      → host.nbq_req.req_type ≡ abi.cmd_write
      → host.nbq_req.data_len ≤ length host.nbq_req.data_buf
      → ((k : ℕ) → 0 < count k order → k < fragment_count host.nbq_req)
      → disk device socket (deliver device (map (fragment_message abi host socket) order) devices) a
        ≡ (if leb (first_fragment host) (a / frag_size)
              && ltb 0 (count (a / frag_size - first_fragment host) order)
            then get_elem? host.nbq_req.data_buf
                ((a / frag_size - first_fragment host) * frag_size + a % frag_size)
            else disk device socket devices a)
  unfolding deliver count
  deliver-write [] devices a e fits within = ground arith
  deliver-write (k ∷ order) devices a e fits within =
      let lt : k < fragment_count host.nbq_req = within k (ground arith) in
      ground (
        arith,
        deliver-write order (arrive device (fragment_message abi host socket k) devices) a e fits
            (λ j pos. within j (omega (arith, pos))),
        arrive-write k devices a e lt fits,
      )

  -- The messages of all fragments, each once, in any order.
  pub deliver_all :
      (order : List ℕ) (devices : Devices device) (a : ℕ)
      → host.nbq_req.req_type ≡ abi.cmd_write
      → length host.nbq_req.data_buf ≡ host.nbq_req.data_len
      → ((k : ℕ) → count k order ≡ (if ltb k (fragment_count host.nbq_req) then 1 else 0))
      → disk device socket (deliver device (map (fragment_message abi host socket) order) devices) a
        ≡ flat_write host.nbq_req (disk device socket devices) a
  deliver_all order devices a e size once = ground (
    arith,
    aligned.from,
    aligned.whole,
    deliver-write order devices a e (omega (arith, size)) (λ k pos. ground (arith, once k)),
    once (a / frag_size - first_fragment host),
  )

-- A write of whole fragments to devices with room for them: all jobs of `Distribute` return, and in
-- whatever order the messages that they hand to `sendmsg` reach the devices, the disk that the devices
-- make up is then the old one with the data of the request at its offset.
write_refines :
    {abi : NbdAbi} (device : IotDevice abi) (fails : SendFails) (host : RequestHost)
    (socket : ℕ → ℕ)
    → IsServed abi host.nbq_req
    → IsWired socket
    → IsAligned device host.nbq_req
    → host.nbq_req.req_type ≡ abi.cmd_write
    → length host.nbq_req.data_buf ≡ host.nbq_req.data_len
    → (ks : List ℕ) × (run_jobs (command_factory abi) fails host (distribute host socket)
        ≡ done (map (fragment_message abi host socket) ks))
      × ((order : List ℕ)
          → ((k : ℕ) → count k order ≡ count k ks)
          → (devices : Devices device) (a : ℕ)
          → disk device socket
              (deliver device (map (fragment_message abi host socket) order) devices)
              a
            ≡ flat_write host.nbq_req (disk device socket devices) a)
write_refines {abi} device fails host socket served wired aligned e size =
    let (ks, ran, once) = distribute_covers abi fails host socket served in
    (
      ks,
      ran,
      λ order same devices a.
          deliver_all device host socket wired aligned order devices a e size
            (λ k. same k ∙ once k),
    )
