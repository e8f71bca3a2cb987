-- ===== src/Examples/Clouds.antt =====
-- Eight devices in memory, a write to them and a read from them.
use private_distributed_clou.Prelude.{
  ℕ, zero, suc, ◌+◌, ◌-◌, ◌<◌, ◌≡◌, refl, false, some, List, [], ◌∷◌, map, ltb, leb, ◌&&◌,
  if◌then◌else◌, arith, length,
}
use private_distributed_clou.Memory.{get_elem?}
use private_distributed_clou.Nbd.{NbdMessage}
use private_distributed_clou.Command.{AtlasHeader, Piece, header_bytes, data_bytes, SendFails}
use private_distributed_clou.Host.{RequestHost, create_host}
use private_distributed_clou.Host.Placement.{fragment_message}
use private_distributed_clou.Cloud.{IotDevice, IsWired, IsAligned, Devices, deliver}
use private_distributed_clou.Cloud.Reads.{answer_of}
use private_distributed_clou.Kernels.{linux_abi}

abbrev pub tabulate : ℕ → (ℕ → ℕ) → List ℕ
tabulate zero f = []
tabulate (suc n) f = f 0 ∷ tabulate n (λ i. f (suc i))

pub length-tabulate : (n : ℕ) (f : ℕ → ℕ) → length (tabulate n f) ≡ n
length-tabulate zero f = refl
length-tabulate (suc n) f = ground (arith, length-tabulate n (λ i. f (suc i)))

pub get_elem?-tabulate :
    (n : ℕ) (f : ℕ → ℕ) (i : ℕ) → i < n → get_elem? (tabulate n f) i ≡ some (f i)
get_elem?-tabulate zero f i lt = absurd (omega arith)
get_elem?-tabulate (suc n) f zero lt = refl
get_elem?-tabulate (suc n) f (suc i) lt = get_elem?-tabulate n (λ j. f (suc j)) i (omega arith)

abbrev pub get_or : List ℕ → ℕ → ℕ → ℕ
get_or [] i b = b
get_or (x ∷ xs) zero b = x
get_or (x ∷ xs) (suc i) b = get_or xs i b

some-get_or : (xs : List ℕ) (i b : ℕ) → i < length xs → some (get_or xs i b) ≡ get_elem? xs i
some-get_or [] i b lt = absurd (omega arith)
some-get_or (x ∷ xs) zero b lt = refl
some-get_or (x ∷ xs) (suc i) b lt = some-get_or xs i b (omega arith)

abbrev pub store : List Piece → (ℕ → ℕ) → ℕ → ℕ
store (header_bytes h ∷ data_bytes bs ∷ []) s a =
    if leb h.iot_offset a && ltb a (h.iot_offset + h.len)
    then get_or bs (a - h.iot_offset) 0
    else s a
store _ s a = s a

pub store-write :
    (h : AtlasHeader) (bs : List ℕ) (s : ℕ → ℕ) (a : ℕ)
    → length bs ≡ h.len
    → some (store (header_bytes h ∷ data_bytes bs ∷ []) s a) ≡ (
        if leb h.iot_offset a && ltb a (h.iot_offset + h.len)
        then get_elem? bs (a - h.iot_offset)
        else some (s a))
store-write h bs s a len = ground (arith, some-get_or bs (a - h.iot_offset) 0)

abbrev pub in_memory : IotDevice linux_abi
in_memory = record {
  State = ℕ → ℕ;
  capacity = 4096;
  byte = λ s a. some (s a);
  receive = store;
  answer = λ h s. tabulate h.len (λ i. s (h.iot_offset + i));
  receive_write = λ h bs s a e len room. store-write h bs s a len;
  receive_read = λ h s a e. refl;
  length-answer = λ h s room. length-tabulate h.len (λ i. s (h.iot_offset + i));
  get_elem?-answer = λ h s i room lt. get_elem?-tabulate h.len (λ j. s (h.iot_offset + j)) i lt;
}

abbrev pub wires : ℕ → ℕ
wires i = i + 100

pub wires-IsWired : IsWired wires
wires-IsWired = record { apart = λ i j p q e. omega (arith, p, q, e) }

-- A write of the fragments 3 and 4 of the disk.
abbrev pub writer : RequestHost
writer = record {
  message = record {
    nbd_req = record {
      req_type = 1;
      data_len = 2048;
      offset = 3072;
      data_buf = tabulate 2048 (λ i. i);
    };
    nbd_sock = 3;
    reply = record { magic = 0; error = 0; handle = 7 ∷ [] };
  };
  req_uid = 4;
  fragmentation_set = [];
}

pub writer-IsAligned : IsAligned in_memory writer.nbq_req
writer-IsAligned = record { from = refl; whole = refl; room = omega arith }

abbrev pub all_sent : SendFails
all_sent = λ _. false

-- A read of the fragments 4 and 5.
abbrev pub reader : NbdMessage
reader = record {
  nbd_req = record {
    req_type = 0;
    data_len = 2048;
    offset = 4096;
    data_buf = tabulate 2048 (λ i. 0);
  };
  nbd_sock = 3;
  reply = record { magic = 0; error = 0; handle = 8 ∷ [] };
}

pub reader-IsAligned : IsAligned in_memory reader.nbd_req
reader-IsAligned = record { from = refl; whole = refl; room = omega arith }

abbrev pub zeros : Devices in_memory
zeros fd a = 0

-- The message of fragment 1 is answered while that of fragment 0 is still under way.
abbrev pub seen : ℕ → List ℕ
seen zero = 1 ∷ 0 ∷ []
seen (suc k) = 1 ∷ []

abbrev replies_from : Devices in_memory → List (ℕ × List ℕ)
replies_from devices =
    (1, answer_of in_memory (create_host 9 reader).0 wires seen devices 1)
    ∷ (0, answer_of in_memory (create_host 9 reader).0 wires seen devices 0)
    ∷ []

abbrev written : Devices in_memory
written = deliver in_memory (map (fragment_message linux_abi writer wires) (1 ∷ 0 ∷ [])) zeros
