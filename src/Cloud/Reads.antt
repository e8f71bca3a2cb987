-- ===== src/Cloud/Reads.antt =====
-- A read from the IoT devices is a read from one disk, in whatever order the replies come.
use private_distributed_clou.Prelude.{
  ℕ, ◌+◌, ◌*◌, ◌/◌, ◌%◌, ◌<◌, ◌^◌, ◌≡◌, refl, ap, sym, ◌∙◌, List, [], ◌∷◌, some, true, map, arith,
  length, ◌↔◌,
}
use private_distributed_clou.Memory.{get_elem?}
use private_distributed_clou.Nbd.{NbdAbi, NbdMessage}
use private_distributed_clou.Run.{done}
use private_distributed_clou.Host.{RequestHost, create_host, frag_size, num_of_iot, fragment_count}
use private_distributed_clou.Host.Placement.{first_fragment, fragment_header, fragment_message}
use private_distributed_clou.Host.Reply.{is_answered}
use private_distributed_clou.Host.Completion.{take_replies, AreFrom, answers, read_reassembled}
use private_distributed_clou.Cloud.{IotDevice, IsAligned, Devices, arrive, deliver, disk}

module _ {abi : NbdAbi} (device : IotDevice abi) (host : RequestHost) (socket : ℕ → ℕ) where
  -- Read messages change no byte of a device.
  byte-deliver :
      (seen : List ℕ) (devices : Devices device) (fd a : ℕ)
      → host.nbq_req.req_type ≡ abi.cmd_read
      → device.byte (deliver device (map (fragment_message abi host socket) seen) devices fd) a
        ≡ device.byte (devices fd) a
  unfolding deliver arrive
  byte-deliver [] devices fd a e = refl
  byte-deliver (k ∷ seen) devices fd a e = ground (
    arith,
    abi.distinct,
    byte-deliver seen (arrive device (fragment_message abi host socket k) devices) fd a e,
    device.receive_read (fragment_header host k) (devices fd) a e,
  )

  -- What the device of fragment `k` answers, when the messages of the fragments `seen k` have reached the devices.
  abbrev pub answer_of : (ℕ → List ℕ) → Devices device → ℕ → List ℕ
  answer_of seen devices k = device.answer (fragment_header host k) (
      deliver device (map (fragment_message abi host socket) (seen k)) devices
        (socket ((first_fragment host + k) % num_of_iot + 1)))

  answered_byte :
      (seen : ℕ → List ℕ) (devices : Devices device) (k i : ℕ)
      → IsAligned device host.nbq_req
      → host.nbq_req.req_type ≡ abi.cmd_read
      → k < fragment_count host.nbq_req
      → i < frag_size
      → get_elem? (answer_of seen devices k) i
        ≡ disk device socket devices (host.nbq_req.offset + (k * frag_size + i))
  unfolding disk
  answered_byte seen devices k i aligned e lt small =
      let fd = socket ((first_fragment host + k) % num_of_iot + 1) in
      let at : (host.nbq_req.offset + (k * frag_size + i)) / frag_size ≡ first_fragment host + k =
        omega (arith, aligned.from) in
      let within : (host.nbq_req.offset + (k * frag_size + i)) % frag_size ≡ i =
        omega (arith, aligned.from) in
      device.get_elem?-answer (fragment_header host k)
        (deliver device (map (fragment_message abi host socket) (seen k)) devices fd) i
        (omega (arith, aligned.room)) small
      ∙ byte-deliver (seen k) devices fd ((first_fragment host + k) * 128 + i) e
      ∙ rw (at, within, disk)

  -- Replies to fragments of the request, each with the bytes that the device of the fragment answers.
  abbrev pub AreAnswers : (ℕ → List ℕ) → Devices device → List (ℕ × List ℕ) → Type 0
  AreAnswers seen devices [] = Unit {0}
  AreAnswers seen devices ((fragment, bytes) ∷ replies) =
      (fragment < fragment_count host.nbq_req)
      × (bytes ≡ answer_of seen devices fragment)
      × AreAnswers seen devices replies

  AreAnswers-AreFrom :
      (seen : ℕ → List ℕ) (devices : Devices device) (replies : List (ℕ × List ℕ))
      → IsAligned device host.nbq_req
      → AreAnswers seen devices replies
      → AreFrom (answer_of seen devices) (fragment_count host.nbq_req) replies
  AreAnswers-AreFrom seen devices [] aligned all = tt
  AreAnswers-AreFrom seen devices ((fragment, bytes) ∷ replies) aligned all = (
    all.0,
    all.1,
    ap length all.1
        ∙ device.length-answer (fragment_header host fragment) _
            (omega (arith, aligned.room, all.0)),
    AreAnswers-AreFrom seen devices replies aligned all.2,
  )

-- A read of whole fragments within the devices: whatever replies the devices give, in any order, with
-- repetitions, and with any of the request's messages still under way, the host takes them all. It waits for no
-- fragment exactly if each was answered, and then its buffer is the part of the disk that was asked for.
pub read_refines :
    {abi : NbdAbi} (device : IotDevice abi) (next_uid : ℕ) (m : NbdMessage) (socket : ℕ → ℕ)
    (devices : Devices device) (seen : ℕ → List ℕ) (replies : List (ℕ × List ℕ))
    → IsAligned device m.nbd_req
    → m.nbd_req.req_type ≡ abi.cmd_read
    → m.nbd_req.data_len < 2 ^ 32
    → length m.nbd_req.data_buf ≡ m.nbd_req.data_len
    → AreAnswers device (create_host next_uid m).0 socket seen devices replies
    → (after : RequestHost) × (take_replies abi (create_host next_uid m).0 replies ≡ some after)
      × ((is_answered after ≡ true)
          ↔ ((k : ℕ) → k < fragment_count m.nbd_req → answers replies k ≡ true))
      × (is_answered after ≡ true
          → (i : ℕ) → i < m.nbd_req.data_len
          → get_elem? after.nbq_req.data_buf i ≡ disk device socket devices (m.nbd_req.offset + i))
unfolding create_host
read_refines {abi} device next_uid m socket devices seen replies aligned e small size all =
    let host = (create_host next_uid m).0 in
    let contents = answer_of device host socket seen devices in
    let (after, ran, waits, stored) =
      read_reassembled abi contents next_uid m replies e small size
        (AreAnswers-AreFrom device host socket seen devices replies aligned all) in
    (
      after,
      ran,
      waits,
      λ done i lt.
          let k = i / frag_size in
          let inside : k < fragment_count m.nbd_req = omega (arith, aligned.whole) in
          let here : k * frag_size + i % frag_size ≡ i = omega arith in
          ap (get_elem? after.nbq_req.data_buf) (sym here)
          ∙ stored k (i % frag_size) (omega arith) (waits.0 done k inside)
          ∙ answered_byte device host socket seen devices k (i % frag_size) aligned e inside
              (omega arith)
          ∙ ap (λ j. disk device socket devices (m.nbd_req.offset + j)) here,
    )
