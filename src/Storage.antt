-- ===== src/Storage.antt =====
-- final_project/concrete/src/main/main.cpp: the server that keeps the device in its own memory.
pub mod Serving
use private_distributed_clou.Prelude.{
  ℕ, ◌+◌, ◌-◌, ◌≤◌, ◌<◌, ◌≡◌, ◌≢◌, ◌⊎◌, refl, ◌&&◌, Option, none, some, List, leb, ltb, ◌==◌,
  if◌then◌else◌, arith, length, slice,
}
use private_distributed_clou.Run.{Run, done, fault, ◌>>=◌}
use private_distributed_clou.Memory.{get_elem?, write_at, length-write_at, get_elem?-copy}
use private_distributed_clou.Net.{Kernel}
use private_distributed_clou.Function.{bind_free}
use private_distributed_clou.Reactor.{Reactor, new_reactor, register_read_handler}
use private_distributed_clou.Nbd.{
  NbdAbi, NbdRequest, NbdMessage, nbd_request_read, nbd_request_done,
}

-- The buffer and the storage after a request.
pub record Served : Type 0 where
  pub data_buf : List ℕ
  pub storage : List ℕ

-- The two copies, by `memcpy`. `none` is a copy over the end of the storage or of the buffer: the source
-- does not test for it.
unfoldable pub copy_from_storage : NbdRequest → List ℕ → Option Served
copy_from_storage r storage =
    if leb (r.offset + r.data_len) (length storage) && leb r.data_len (length r.data_buf)
    then some (record {
      data_buf = write_at 0 (slice r.offset r.data_len storage) r.data_buf;
      storage = storage;
    })
    else none

unfoldable pub copy_to_storage : NbdRequest → List ℕ → Option Served
copy_to_storage r storage =
    if leb (r.offset + r.data_len) (length storage) && leb r.data_len (length r.data_buf)
    then some (record {
      data_buf = r.data_buf;
      storage = write_at r.offset (slice 0 r.data_len r.data_buf) storage;
    })
    else none

-- The `switch` of `Handle`.
unfoldable pub serve : NbdAbi → NbdRequest → List ℕ → Option Served
unfolding copy_from_storage copy_to_storage
serve abi r storage =
    if r.req_type == abi.cmd_read
    then copy_from_storage r storage
    else if r.req_type == abi.cmd_write
    then copy_to_storage r storage
    else some (record { data_buf = r.data_buf; storage = storage })

-- The message with the buffer that the copy left.
with_buffer : NbdMessage → List ℕ → NbdMessage
with_buffer m bytes = record m { nbd_req = record (m.nbd_req) { data_buf = bytes } }

-- `Handle(nbdSock)`: the storage, the 1 that is returned, and the world.
unfoldable pub handle :
    NbdAbi → (k : Kernel) → (ℕ → List ℕ) → ℕ → List ℕ → k.World → Run (List ℕ × ℕ × k.World)
unfolding with_buffer serve
handle abi k malloced sock storage w = nbd_request_read abi k malloced sock w >>= λ r.
    elim (serve abi r.0.nbd_req storage) [
      | none ↦ fault
      | some s ↦ nbd_request_done abi k (with_buffer r.0 s.data_buf) 0 r.1 >>= λ w'.
          done (s.storage, 1, w')
    ]

-- The storage, which is a global variable, and the kernel.
pub record StorageWorld (k : Kernel) : Type 0 where
  pub storage : List ℕ
  pub io : k.World

-- A free function is called on no object.
abbrev pub Object : Type 0
Object = Unit {0}

module _ (abi : NbdAbi) (k : Kernel) (malloced : ℕ → List ℕ) where
  -- `&Handle`, as the reactor calls it.
  unfoldable pub storage_callable : ℕ → StorageWorld k → Run (ℕ × StorageWorld k)
  unfolding handle
  storage_callable sock w = handle abi k malloced sock w.storage w.io >>= λ r.
      done (r.1, record { storage = r.0; io = r.2 })

  -- The reactor that `main` runs, for the socket of `NbdDevOpen`.
  unfoldable pub storage_reactor : ℕ → Reactor (StorageWorld k) Object ℕ
  unfolding storage_callable
  storage_reactor sock = register_read_handler sock (bind_free storage_callable sock) new_reactor

-- What a copy to the storage and a copy back leave in the buffer.
copied_back :
    (wr rd : NbdRequest) (storage : List ℕ) (i : ℕ)
    → wr.offset + wr.data_len ≤ length storage
    → length wr.data_buf ≡ wr.data_len
    → rd.offset + rd.data_len ≤ length storage
    → length rd.data_buf ≡ rd.data_len
    → i < rd.data_len
    → get_elem?
        (write_at 0
          (slice rd.offset rd.data_len
            (write_at wr.offset (slice 0 wr.data_len wr.data_buf) storage))
          rd.data_buf)
        i
      ≡ (if leb wr.offset (rd.offset + i) && ltb (rd.offset + i) (wr.offset + wr.data_len)
          then get_elem? wr.data_buf (rd.offset + i - wr.offset)
          else get_elem? storage (rd.offset + i))
copied_back wr rd storage i fw lw fr lr lt =
    let after : List ℕ = write_at wr.offset (slice 0 wr.data_len wr.data_buf) storage in
    let size = length-write_at wr.offset (slice 0 wr.data_len wr.data_buf) storage in
    let back =
      get_elem?-copy rd.offset rd.data_len after 0 rd.data_buf i (omega (arith, size))
        (omega arith) in
    let first : i - 0 ≡ i = omega arith in
    let begin : 0 + (rd.offset + i - wr.offset) ≡ rd.offset + i - wr.offset = omega arith in
    let there =
      get_elem?-copy 0 wr.data_len wr.data_buf wr.offset storage (rd.offset + i) (omega arith) fw in
    ground (arith, back, there)

-- A write inside the storage, then any read inside it: the read finds at each address of the write the
-- byte that was written, at each other address the byte that was there before, and the storage keeps its
-- size.
pub read_after_write :
    (abi : NbdAbi) (wr rd : NbdRequest) (storage : List ℕ)
    → wr.req_type ≡ abi.cmd_write
    → rd.req_type ≡ abi.cmd_read
    → wr.offset + wr.data_len ≤ length storage
    → length wr.data_buf ≡ wr.data_len
    → rd.offset + rd.data_len ≤ length storage
    → length rd.data_buf ≡ rd.data_len
    → (written : Served) × (answer : Served) × (serve abi wr storage ≡ some written)
      × (serve abi rd written.storage ≡ some answer)
      × (length written.storage ≡ length storage)
      × (answer.storage ≡ written.storage)
      × ((i : ℕ)
          → i < rd.data_len
          → get_elem? answer.data_buf i ≡ (
              if leb wr.offset (rd.offset + i) && ltb (rd.offset + i) (wr.offset + wr.data_len)
              then get_elem? wr.data_buf (rd.offset + i - wr.offset)
              else get_elem? storage (rd.offset + i)))
unfolding serve
read_after_write abi wr rd storage ew er fw lw fr lr =
    let after : List ℕ = write_at wr.offset (slice 0 wr.data_len wr.data_buf) storage in
    let size : length after ≡ length storage =
      length-write_at wr.offset (slice 0 wr.data_len wr.data_buf) storage in
    (
      record { data_buf = wr.data_buf; storage = after },
      record {
        data_buf = write_at 0 (slice rd.offset rd.data_len after) rd.data_buf;
        storage = after;
      },
      ground (arith, abi.distinct),
      ground (arith, size),
      size,
      refl,
      λ i lt. copied_back wr rd storage i fw lw fr lr lt,
    )

-- A request that is neither a read nor a write changes neither the storage nor the buffer.
pub serve_other :
    (abi : NbdAbi) (r : NbdRequest) (storage : List ℕ)
    → r.req_type ≢ abi.cmd_read
    → r.req_type ≢ abi.cmd_write
    → serve abi r storage ≡ some (record { data_buf = r.data_buf; storage = storage })
unfolding serve
serve_other abi r storage er ew = ground arith

-- A read or a write that reaches over the end of the storage is copied all the same: the copy is
-- undefined behaviour, since nothing compares the request with the size of the storage.
pub serve_out_of_bounds :
    (abi : NbdAbi) (r : NbdRequest) (storage : List ℕ)
    → (r.req_type ≡ abi.cmd_read) ⊎ (r.req_type ≡ abi.cmd_write)
    → length storage < r.offset + r.data_len
    → serve abi r storage ≡ none
unfolding serve
serve_out_of_bounds abi r storage known over = ground arith
