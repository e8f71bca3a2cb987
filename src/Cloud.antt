-- ===== src/Cloud.antt =====
-- The eight IoT devices behind RequestHost.cpp of final_project/concrete/src/RequestHost, seen as one disk. The
-- devices' own program is not in this repository: it is a parameter.
pub mod Answers
pub mod Writes
pub mod Pooled
pub mod Reads
use private_distributed_clou.Prelude.{
  ℕ, ◌+◌, ◌-◌, ◌*◌, ◌/◌, ◌%◌, ◌≤◌, ◌<◌, ◌≡◌, Bool, Option, List, [], ◌∷◌, ltb, leb, ◌&&◌, ◌==◌,
  if◌then◌else◌, length,
}
use private_distributed_clou.Memory.{get_elem?}
use private_distributed_clou.Nbd.{NbdAbi, NbdRequest}
use private_distributed_clou.Command.{AtlasHeader, Piece, header_bytes, data_bytes, Sent}
use private_distributed_clou.Host.{frag_size, num_of_iot}

-- An IoT device: it has `capacity` bytes, stores the data of a write message at the address in its header,
-- keeps them on a read message, and answers that with the bytes that it has there.
pub record IotDevice (abi : NbdAbi) : Type 1 where
  pub State : Type 0
  pub capacity : ℕ
  pub byte : State → ℕ → Option ℕ
  pub receive : List Piece → State → State
  pub answer : AtlasHeader → State → List ℕ
  pub receive_write :
      (h : AtlasHeader) (bs : List ℕ) (s : State) (a : ℕ)
      → h.type ≡ abi.cmd_write
      → length bs ≡ h.len
      → h.iot_offset + h.len ≤ capacity
      → byte (receive (header_bytes h ∷ data_bytes bs ∷ []) s) a ≡ (
          if leb h.iot_offset a && ltb a (h.iot_offset + h.len)
          then get_elem? bs (a - h.iot_offset)
          else byte s a)
  pub receive_read :
      (h : AtlasHeader) (s : State) (a : ℕ)
      → h.type ≡ abi.cmd_read
      → byte (receive (header_bytes h ∷ []) s) a ≡ byte s a
  pub length-answer :
      (h : AtlasHeader) (s : State) → h.iot_offset + h.len ≤ capacity → length (answer h s) ≡ h.len
  pub get_elem?-answer :
      (h : AtlasHeader) (s : State) (i : ℕ)
      → h.iot_offset + h.len ≤ capacity
      → i < h.len
      → get_elem? (answer h s) i ≡ byte s (h.iot_offset + i)

-- The devices are connected by eight different sockets.
pub record IsWired (socket : ℕ → ℕ) : Type 0 where
  pub apart : (i j : ℕ) → i < num_of_iot → j < num_of_iot → socket (i + 1) ≡ socket (j + 1) → i ≡ j

module _ {abi : NbdAbi} (device : IotDevice abi) where
  -- The states of the devices, by their sockets.
  abbrev pub Devices : Type 0
  Devices = ℕ → device.State

  -- A message reaches the device of its socket.
  unfoldable pub arrive : Sent → Devices → Devices
  arrive m devices fd = if m.sockfd == fd then device.receive m.pieces (devices fd) else devices fd

  -- Messages in the order in which they reach the devices.
  unfoldable pub deliver : List Sent → Devices → Devices
  deliver [] devices = devices
  deliver (m ∷ ms) devices = deliver ms (arrive m devices)

  -- Byte `a` of the disk: it is kept by the device of its fragment, 128 bytes further for each fragment.
  unfoldable pub disk : (ℕ → ℕ) → Devices → ℕ → Option ℕ
  disk socket devices a =
      device.byte (devices (socket (a / frag_size % num_of_iot + 1)))
        (a / frag_size * 128 + a % frag_size)

-- A write to a disk that is one array.
abbrev pub flat_write : NbdRequest → (ℕ → Option ℕ) → ℕ → Option ℕ
flat_write r old a =
    if leb r.offset a && ltb a (r.offset + r.data_len)
    then get_elem? r.data_buf (a - r.offset)
    else old a

-- A request of whole fragments, as the block size 1024 of NbdDevOpen makes them, within the devices.
pub record IsAligned {abi : NbdAbi} (device : IotDevice abi) (r : NbdRequest) : Type 0 where
  pub from : r.offset % frag_size ≡ 0
  pub whole : r.data_len % frag_size ≡ 0
  pub room : (r.offset + r.data_len) / frag_size * 128 + frag_size ≤ device.capacity + 128
