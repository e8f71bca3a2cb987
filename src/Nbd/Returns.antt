-- ===== src/Nbd/Returns.antt =====
-- NbdRequestRead and NbdRequestDone on a socket whose calls do not fail.
use private_distributed_clou.Prelude.{
  ℕ, ◌≡◌, ◌≤◌, inl, inr, ap, List, [], ◌++◌, ◌==◌, if◌then◌else◌, arith, length, length-append,
  take,
}
use private_distributed_clou.Run.{done}
use private_distributed_clou.Net.{Kernel, read_all}
use private_distributed_clou.Net.Live.{IsLive, read_all_returns, write_all_returns}
use private_distributed_clou.Nbd.{
  RawRequest, NbdAbi, message_of, read_data, nbd_request_read, reply_bytes, nbd_request_done,
}
use private_distributed_clou.Nbd.Messages.{read_all-Gives}

-- A read of what the stream is known to begin with.
pub read_known :
    (k : Kernel) (fd count : ℕ) (w : k.World) (bs rest : List ℕ)
    → IsLive k fd
    → length bs ≡ count
    → k.incoming w fd ≡ bs ++ rest
    → (w' : k.World) × (read_all k fd count w ≡ done (bs, w')) × (k.incoming w' fd ≡ rest)
read_known k fd count w bs rest live len stream =
    let enough : count ≤ length (k.incoming w fd) =
      omega (arith, ap length stream, length-append bs rest, len) in
    let returned = (read_all_returns k fd count w live enough).2 in
    elim (read_all-Gives k fd count w bs rest len stream) [ inl bad ↦ cc | inr good ↦ good ]

-- A write on the stream, its header and its data, is read as it was sent: on a socket whose calls do not
-- fail, `NbdRequestRead` returns the message of that header with that data, and leaves the rest of the
-- stream.
pub nbd_request_read_returns :
    (abi : NbdAbi) (k : Kernel) (sock : ℕ) (malloced : ℕ → List ℕ) (header data_bytes rest : List ℕ)
    (w : k.World)
    → IsLive k sock
    → length header ≡ abi.request_size
    → (abi.decode_request header).magic ≡ abi.htonl abi.request_magic
    → abi.ntohl (abi.decode_request header).type ≡ abi.cmd_write
    → length data_bytes ≡ abi.ntohl (abi.decode_request header).len
    → k.incoming w sock ≡ header ++ (data_bytes ++ rest)
    → (w' : k.World) × (nbd_request_read abi k malloced sock w
        ≡ done (message_of abi sock (abi.decode_request header) data_bytes, w'))
      × (k.incoming w' sock ≡ rest)
unfolding nbd_request_read read_data
nbd_request_read_returns abi k sock malloced header data_bytes rest w live size magic type len
      stream =
    let (w1, first, stream1) =
      read_known k sock abi.request_size w header (data_bytes ++ rest) live size stream in
    let (w2, second, stream2) = read_known k sock _ w1 data_bytes rest live len stream1 in
    (w2, ground (arith, first, second, magic, type), stream2)

-- On a socket whose calls do not fail, `NbdRequestDone` returns, and the socket has got, behind what it
-- had, the reply with the error given and the handle of the request, and for a read the data of the
-- buffer, but for any other request no data.
pub nbd_request_done_returns :
    (abi : NbdAbi) (k : Kernel) (sock : ℕ) (raw : RawRequest) (buffer : List ℕ) (error : ℕ)
    (w : k.World)
    → IsLive k sock
    → (w' : k.World) × (nbd_request_done abi k (message_of abi sock raw buffer) error w ≡ done w')
      × (k.outgoing w' sock
          ≡ k.outgoing w sock
            ++ (abi.encode_reply (record {
              magic = abi.htonl abi.reply_magic;
              error = abi.htonl error;
              handle = raw.handle;
            })
                ++ (if abi.ntohl raw.type == abi.cmd_read
                    then take (abi.ntohl raw.len) buffer
                    else [])))
unfolding nbd_request_done message_of
nbd_request_done_returns abi k sock raw buffer error w live =
    write_all_returns k sock (reply_bytes abi (message_of abi sock raw buffer) error) w live
