-- ===== src/Examples/Sockets.antt =====
-- The byte streams, and the messages of the network block device.
use private_distributed_clou.Prelude.{
  ℕ, ◌+◌, ◌*◌, ◌<◌, ◌≡◌, refl, some, List, [], ◌∷◌, ◌++◌, if◌then◌else◌, leb, ltb, ◌&&◌, ◌-◌,
  length, arith, slice,
}
use private_distributed_clou.Run.{done}
use private_distributed_clou.Memory.{get_elem?}
use private_distributed_clou.Net.{read_all, write_all}
use private_distributed_clou.Net.Live.{read_all_returns, write_all_returns}
use private_distributed_clou.Nbd.{
  NbdRequest, RawRequest, ntohll, message_of, nbd_request_read, nbd_request_done,
}
use private_distributed_clou.Nbd.Bytes.{le32, ntohll-le}
use private_distributed_clou.Nbd.Returns.{nbd_request_read_returns, nbd_request_done_returns}
use private_distributed_clou.Storage.{Served, serve, read_after_write}
use private_distributed_clou.Kernels.{chunk_kernel-IsLive, Wire, chunk_kernel, swap32, linux_abi}

abbrev five_bytes : Wire
five_bytes = record { inbox = 1 ∷ 2 ∷ 3 ∷ 4 ∷ 5 ∷ []; outbox = 9 ∷ [] }

read_all_returns_example :
    (bs : List ℕ) × (w' : Wire) × (read_all (chunk_kernel 1) 3 4 five_bytes ≡ done (bs, w'))
    × (length bs ≡ 4)
    × (1 ∷ 2 ∷ 3 ∷ 4 ∷ 5 ∷ [] ≡ bs ++ w'.inbox)
read_all_returns_example =
    read_all_returns (chunk_kernel 1) 3 4 five_bytes (chunk_kernel-IsLive 0 3) (omega arith)

write_all_returns_example :
    (w' : Wire) × (write_all (chunk_kernel 1) 3 (6 ∷ 7 ∷ 8 ∷ []) five_bytes ≡ done w')
    × (w'.outbox ≡ 9 ∷ 6 ∷ 7 ∷ 8 ∷ [])
write_all_returns_example =
    write_all_returns (chunk_kernel 1) 3 (6 ∷ 7 ∷ 8 ∷ []) five_bytes (chunk_kernel-IsLive 0 3)

-- A write of two bytes at 1024: magic, type, handle, from and len, all in network order.
abbrev write_header : List ℕ
write_header =
    0x25 ∷ 0x60 ∷ 0x95 ∷ 0x13 ∷ 0 ∷ 0 ∷ 0 ∷ 1 ∷ 1 ∷ 2 ∷ 3 ∷ 4 ∷ 5 ∷ 6 ∷ 7 ∷ 8 ∷ 0 ∷ 0 ∷ 0 ∷ 0 ∷ 0
    ∷ 0 ∷ 4 ∷ 0 ∷ 0 ∷ 0 ∷ 0 ∷ 2 ∷ []

abbrev write_wire : Wire
write_wire = record { inbox = write_header ++ (21 ∷ 22 ∷ 99 ∷ []); outbox = [] }

abbrev garbage : ℕ → List ℕ
garbage n = []

nbd_request_read_returns_example :
    (w' : Wire) × (nbd_request_read linux_abi (chunk_kernel 1) garbage 3 write_wire
      ≡ done (message_of linux_abi 3 (linux_abi.decode_request write_header) (21 ∷ 22 ∷ []), w'))
    × (w'.inbox ≡ 99 ∷ [])
unfolding slice
nbd_request_read_returns_example =
    nbd_request_read_returns linux_abi (chunk_kernel 1) 3 garbage write_header (21 ∷ 22 ∷ [])
      (99 ∷ []) write_wire (chunk_kernel-IsLive 0 3) refl refl refl refl refl

abbrev read_raw : RawRequest
read_raw = record { magic = 0; type = 0; handle = 1 ∷ 2 ∷ []; from = 0; len = 0x2000000 }

nbd_request_done_returns_example :
    (w' : Wire) × (nbd_request_done linux_abi
        (chunk_kernel 1)
        (message_of linux_abi 3 read_raw (41 ∷ 42 ∷ 43 ∷ []))
        0
        five_bytes
      ≡ done w')
    × (w'.outbox ≡ 9 ∷ 1 ∷ 2 ∷ 41 ∷ 42 ∷ [])
nbd_request_done_returns_example =
    nbd_request_done_returns linux_abi (chunk_kernel 1) 3 read_raw (41 ∷ 42 ∷ 43 ∷ []) 0 five_bytes
      (chunk_kernel-IsLive 0 3)

ntohll-le_example : ntohll swap32 (le32 0 0 0 0 + 4294967296 * le32 0 0 4 0) ≡ 1024
ntohll-le_example =
    ntohll-le swap32 (λ a b c d pa pb pc pd. omega arith) 0 0 0 0 0 0 4 0 (omega arith)
      (omega arith) (omega arith) (omega arith) (omega arith) (omega arith) (omega arith)
      (omega arith)

abbrev disk_request : ℕ → ℕ → ℕ → List ℕ → NbdRequest
disk_request type offset len buffer = record {
  req_type = type;
  data_len = len;
  offset = offset;
  data_buf = buffer;
}

abbrev disk : List ℕ
disk = 10 ∷ 11 ∷ 12 ∷ 13 ∷ 14 ∷ []

read_after_write_example :
    (written : Served) × (answer : Served) × (serve linux_abi
        (disk_request 1 1 2 (71 ∷ 72 ∷ []))
        disk
      ≡ some written)
    × (serve linux_abi (disk_request 0 2 3 (0 ∷ 0 ∷ 0 ∷ [])) written.storage ≡ some answer)
    × (length written.storage ≡ 5)
    × (answer.storage ≡ written.storage)
    × ((i : ℕ)
        → i < 3
        → get_elem? answer.data_buf i ≡ (
            if leb 1 (2 + i) && ltb (2 + i) (1 + 2)
            then get_elem? (71 ∷ 72 ∷ []) (2 + i - 1)
            else get_elem? disk (2 + i)))
read_after_write_example =
    read_after_write linux_abi (disk_request 1 1 2 (71 ∷ 72 ∷ []))
      (disk_request 0 2 3 (0 ∷ 0 ∷ 0 ∷ [])) disk refl refl (omega arith) refl (omega arith) refl
