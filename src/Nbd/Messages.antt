-- ===== src/Nbd/Messages.antt =====
-- What a request that is read from the device's socket holds, and what a reply puts there.
use private_distributed_clou.Prelude.{
  ℕ, ◌≡◌, ◌≢◌, ◌⊎◌, inl, inr, refl, ap, sym, ◌∙◌, List, [], ◌++◌, ◌==◌, if◌then◌else◌, arith,
  length, take, append-cancel, ==_iff,
}
use private_distributed_clou.Run.{Run, done, fault, ◌>>=◌}
use private_distributed_clou.Net.{Kernel, read_all}
use private_distributed_clou.Net.Stream.{Writes, read_all-Reads, write_all-Writes}
use private_distributed_clou.Nbd.{
  RawRequest, NbdAbi, message_of, read_data, nbd_request_read, reply_bytes, nbd_request_done,
}

-- An assertion failed, or the call returned `a` and left `rest` of the stream.
abbrev pub Gives : {A : Type 0} (k : Kernel) → ℕ → A → List ℕ → Run (A × k.World) → Type 0
Gives k fd a rest r =
    (r ≡ fault) ⊎ ((w' : k.World) × (r ≡ done (a, w')) × (k.incoming w' fd ≡ rest))

-- A read of what the stream is known to begin with.
pub read_all-Gives :
    (k : Kernel) (fd count : ℕ) (w : k.World) (bs rest : List ℕ)
    → length bs ≡ count
    → k.incoming w fd ≡ bs ++ rest
    → Gives k fd bs rest (read_all k fd count w)
read_all-Gives k fd count w bs rest len stream = elim (read_all-Reads k fd count w) [
  | inl bad ↦ inl bad
  | inr (cs, w', good, len', stream') ↦
      let same =
        append-cancel cs bs (k.incoming w' fd) rest (len' ∙ sym len) (sym stream' ∙ stream) in
      inr (w', good ∙ ap (λ x. done (x, w')) same.0, same.1)
]

module _ (abi : NbdAbi) (k : Kernel) (sock : ℕ) where
  then_Gives :
      {A B : Type 0} (a : A) (b : B) (mid rest : List ℕ) (r : Run (A × k.World))
      (f : A × k.World → Run (B × k.World))
      → Gives k sock a mid r
      → ((w' : k.World) → k.incoming w' sock ≡ mid → Gives k sock b rest (f (a, w')))
      → Gives k sock b rest (r >>= f)
  then_Gives a b mid rest r f (inl bad) next = inl (ap (λ x. x >>= f) bad)
  then_Gives a b mid rest r f (inr (w', good, stream)) next = rw good (next w' stream)

  read_data-Gives_write :
      (raw : RawRequest) (garbage data_bytes rest : List ℕ) (w : k.World)
      → abi.ntohl raw.type ≡ abi.cmd_write
      → length data_bytes ≡ abi.ntohl raw.len
      → k.incoming w sock ≡ data_bytes ++ rest
      → Gives k sock (message_of abi sock raw data_bytes) rest (read_data abi k sock raw garbage w)
  unfolding read_data
  read_data-Gives_write raw garbage data_bytes rest w e len stream = rw ((==_iff _ _).1 e) (
      then_Gives data_bytes (message_of abi sock raw data_bytes) rest rest
        (read_all k sock (abi.ntohl raw.len) w) _
        (read_all-Gives k sock _ w data_bytes rest len stream) (λ w' h. inr (w', refl, h)))

  -- A write on the stream, its header and its data, is read as it was sent: unless a call on the socket
  -- fails, `NbdRequestRead` returns the message of that header with that data, and leaves the rest of
  -- the stream.
  pub nbd_request_read-write :
      (malloced : ℕ → List ℕ) (header data_bytes rest : List ℕ) (w : k.World)
      → length header ≡ abi.request_size
      → (abi.decode_request header).magic ≡ abi.htonl abi.request_magic
      → abi.ntohl (abi.decode_request header).type ≡ abi.cmd_write
      → length data_bytes ≡ abi.ntohl (abi.decode_request header).len
      → k.incoming w sock ≡ header ++ (data_bytes ++ rest)
      → Gives k sock
          (message_of abi sock (abi.decode_request header) data_bytes)
          rest
          (nbd_request_read abi k malloced sock w)
  unfolding nbd_request_read
  nbd_request_read-write malloced header data_bytes rest w size magic type len stream =
      then_Gives header (message_of abi sock (abi.decode_request header) data_bytes)
        (data_bytes ++ rest) rest (read_all k sock abi.request_size w) _
        (read_all-Gives k sock _ w header (data_bytes ++ rest) size stream)
        λ w' h.
          rw ((==_iff _ _).1 magic)
            (read_data-Gives_write (abi.decode_request header) _ data_bytes rest w' type len h)

  -- A header without the magic number is not accepted: the assertion fails.
  pub nbd_request_read-bad :
      (malloced : ℕ → List ℕ) (header rest : List ℕ) (w : k.World)
      → length header ≡ abi.request_size
      → (abi.decode_request header).magic ≢ abi.htonl abi.request_magic
      → k.incoming w sock ≡ header ++ rest
      → nbd_request_read abi k malloced sock w ≡ fault
  unfolding nbd_request_read
  nbd_request_read-bad malloced header rest w size bad stream =
      elim (read_all-Gives k sock _ w header rest size stream) [
        | inl failed ↦ rw failed
        | inr (w', good, h) ↦ rw good (ground arith)
      ]

-- The answer to a request that was read: `NbdRequestDone` ends, and unless a `write` fails the socket
-- has got, behind what it had, the reply with the reply's magic number, the error given and the handle
-- of the request, and for a read the `len` bytes of the buffer, but for any other request no data.
pub nbd_request_done_lem :
    (abi : NbdAbi) (k : Kernel) (sock : ℕ) (raw : RawRequest) (buffer : List ℕ) (error : ℕ)
    (w : k.World)
    → Writes k sock
        (abi.encode_reply (record {
          magic = abi.htonl abi.reply_magic;
          error = abi.htonl error;
          handle = raw.handle;
        })
          ++ (if abi.ntohl raw.type == abi.cmd_read then take (abi.ntohl raw.len) buffer else []))
        w
        (nbd_request_done abi k (message_of abi sock raw buffer) error w)
unfolding nbd_request_done message_of
nbd_request_done_lem abi k sock raw buffer error w =
    write_all-Writes k sock (reply_bytes abi (message_of abi sock raw buffer) error) w
