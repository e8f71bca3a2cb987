-- ===== src/Nbd.antt =====
-- final_project/framework/src/nbd/nbd_comm.h and nbd_comm.c (and their copies under concrete/): requests
-- of the kernel's network block device, and the replies to them.
pub mod Bytes
pub mod Descriptors
pub mod Device
pub mod Exchange
pub mod Messages
pub mod Returns
use private_distributed_clou.Prelude.{
  ℕ, ◌+◌, ◌*◌, ◌/◌, ◌%◌, ◌^◌, ◌<◌, ◌≢◌, Bool, true, false, List, [], ◌∷◌, ◌++◌, ◌==◌, if◌then◌else◌,
  take,
}
use private_distributed_clou.Run.{Run, done, fault, running, ◌>>=◌}
use private_distributed_clou.Net.{Kernel, read_all, write_all}

-- `struct nbd_request` and `struct nbd_reply` of <linux/nbd.h>, their fields as the host loads them.
pub record RawRequest : Type 0 where
  pub magic : ℕ
  pub type : ℕ
  pub handle : List ℕ
  pub from : ℕ
  pub len : ℕ

pub record RawReply : Type 0 where
  pub magic : ℕ
  pub error : ℕ
  pub handle : List ℕ

-- What <linux/nbd.h> and <arpa/inet.h> give: constants, the layout of the two structures, and the byte
-- order. None of it is part of the repository.
pub record NbdAbi : Type 0 where
  pub cmd_read : ℕ
  pub cmd_write : ℕ
  pub request_magic : ℕ
  pub reply_magic : ℕ
  pub request_size : ℕ
  pub decode_request : List ℕ → RawRequest
  pub encode_reply : RawReply → List ℕ
  pub ntohl : ℕ → ℕ
  pub htonl : ℕ → ℕ
  pub distinct : cmd_read ≢ cmd_write
  pub ntohl-lt : (a : ℕ) → ntohl a < 2 ^ 32

-- `NbdRequest`, with the bytes that `dataBuf` points to.
pub record NbdRequest : Type 0 where
  pub req_type : ℕ  -- uint32_t
  pub data_len : ℕ  -- uint32_t
  pub offset : ℕ  -- uint64_t
  pub data_buf : List ℕ

-- `nbd_message_t`. Its `buffer` is what `dataBuf` points to.
pub record NbdMessage : Type 0 where
  pub nbd_req : NbdRequest
  pub nbd_sock : ℕ
  pub reply : RawReply

-- `ntohll`. The low 32 bits of `lo << 32` are 0 and `hi` has no others, so that `|` is the sum.
unfoldable pub ntohll : (ℕ → ℕ) → ℕ → ℕ
ntohll ntohl a = let lo = ntohl (a % 2 ^ 32) in let hi = ntohl (a / 2 ^ 32) in lo * 2 ^ 32 + hi

-- The message that `NbdRequestRead` fills in. `buffer` is the memory behind it.
unfoldable pub message_of : NbdAbi → ℕ → RawRequest → List ℕ → NbdMessage
message_of abi sock raw buffer = record {
  nbd_req = record {
    req_type = abi.ntohl raw.type;
    data_len = abi.ntohl raw.len;
    offset = ntohll abi.ntohl raw.from;
    data_buf = buffer;
  };
  nbd_sock = sock;
  reply = record { magic = abi.htonl abi.reply_magic; error = abi.htonl 0; handle = raw.handle };
}

-- The bytes that `NbdRequestDone` hands to `write_all`: the reply, and for a read the buffer that lies
-- behind it in the message.
unfoldable pub reply_bytes : NbdAbi → NbdMessage → ℕ → List ℕ
reply_bytes abi m error =
    abi.encode_reply (record (m.reply) { error = abi.htonl error })
    ++ (if m.nbd_req.req_type == abi.cmd_read
        then take m.nbd_req.data_len m.nbd_req.data_buf
        else [])

module _ (abi : NbdAbi) (k : Kernel) where
  -- The end of `NbdRequestRead`: the data of a write follow the header. For any other request the
  -- buffer stays as `malloc` gave it.
  unfoldable pub read_data : ℕ → RawRequest → List ℕ → k.World → Run (NbdMessage × k.World)
  read_data sock raw garbage w =
      if abi.ntohl raw.type == abi.cmd_write
      then (read_all k sock (abi.ntohl raw.len) w >>= λ data_read.
          done (message_of abi sock raw data_read.0, data_read.1))
      else done (message_of abi sock raw garbage, w)

  -- `NbdRequestRead(sock)`. `malloced n` is the content of `n` bytes of new memory.
  unfoldable pub nbd_request_read : (ℕ → List ℕ) → ℕ → k.World → Run (NbdMessage × k.World)
  unfolding read_data
  nbd_request_read malloced sock w = read_all k sock abi.request_size w >>= λ header_read.
      let raw = abi.decode_request header_read.0 in
      if raw.magic == abi.htonl abi.request_magic
      then read_data sock raw (malloced (abi.ntohl raw.len)) header_read.1
      else fault

  -- `NbdRequestDone(req, error)`. The message is freed.
  unfoldable pub nbd_request_done : NbdMessage → ℕ → k.World → Run k.World
  unfolding reply_bytes
  nbd_request_done m error w = write_all k m.nbd_sock (reply_bytes abi m error) w
