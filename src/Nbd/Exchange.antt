-- ===== src/Nbd/Exchange.antt =====
-- One request after the other on the socket of the block device, and the answers that it gets.
use private_distributed_clou.Prelude.{
  ℕ, ◌≡◌, refl, ap, ◌∙◌, List, [], ◌∷◌, ◌++◌, ◌==◌, if◌then◌else◌, arith, length, take, Bool-cases,
  inl, inr,
}
use private_distributed_clou.Run.{done}
use private_distributed_clou.Net.{Kernel}
use private_distributed_clou.Net.Live.{IsLive}
use private_distributed_clou.Net.Duplex.{IsDuplex, read_all_keeps, write_all_keeps}
use private_distributed_clou.Nbd.{
  NbdAbi, NbdMessage, message_of, read_data, nbd_request_read, nbd_request_done, reply_bytes,
}
use private_distributed_clou.Nbd.Returns.{read_known, nbd_request_done_returns}

-- A request as the block device sends it: the structure, and the data of a write.
pub record SentRequest : Type 0 where
  pub header : List ℕ
  pub payload : List ℕ

pub record IsSent (abi : NbdAbi) (q : SentRequest) : Type 0 where
  pub size : length q.header ≡ abi.request_size
  pub magic : (abi.decode_request q.header).magic ≡ abi.htonl abi.request_magic
  pub follows : length q.payload ≡ (
      if abi.ntohl (abi.decode_request q.header).type == abi.cmd_write
      then abi.ntohl (abi.decode_request q.header).len
      else 0)

length-zero : (bs : List ℕ) → length bs ≡ 0 → bs ≡ []
length-zero [] e = refl
length-zero (b ∷ bs) e = absurd (omega arith)

module _ (abi : NbdAbi) (malloced : ℕ → List ℕ) (sock : ℕ) where
  -- The message that a request becomes.
  unfoldable pub message_sent : SentRequest → NbdMessage
  message_sent q = message_of abi sock (abi.decode_request q.header) (
      if abi.ntohl (abi.decode_request q.header).type == abi.cmd_write
      then q.payload
      else malloced (abi.ntohl (abi.decode_request q.header).len))

  -- The answer to a request: the reply with its handle, and for a read the bytes of the buffer.
  unfoldable pub answer_to : SentRequest → List ℕ → List ℕ
  answer_to q buffer =
      abi.encode_reply (record {
        magic = abi.htonl abi.reply_magic;
        error = abi.htonl 0;
        handle = (abi.decode_request q.header).handle;
      })
      ++ (if abi.ntohl (abi.decode_request q.header).type == abi.cmd_read
          then take (abi.ntohl (abi.decode_request q.header).len) buffer
          else [])

  module _ (k : Kernel) (live : IsLive k sock) (both : IsDuplex k sock sock) where
    -- A request of any type on the stream is read as it was sent, and nothing is written meanwhile.
    pub nbd_request_read_sent :
        (q : SentRequest) (rest : List ℕ) (w : k.World)
        → IsSent abi q
        → k.incoming w sock ≡ q.header ++ (q.payload ++ rest)
        → (w' : k.World) × (nbd_request_read abi k malloced sock w ≡ done (message_sent q, w'))
          × (k.incoming w' sock ≡ rest)
          × (k.outgoing w' sock ≡ k.outgoing w sock)
    unfolding nbd_request_read read_data message_sent
    nbd_request_read_sent q rest w sent stream =
        let raw = abi.decode_request q.header in
        let (w1, first, stream1) =
          read_known k sock abi.request_size w q.header (q.payload ++ rest) live sent.size stream in
        let kept1 = read_all_keeps k sock sock both abi.request_size w first in
        elim (Bool-cases (abi.ntohl raw.type == abi.cmd_write)) [
          | inl write ↦
              let len : length q.payload ≡ abi.ntohl raw.len = ground (arith, sent.follows) in
              let (w2, second, stream2) =
                read_known k sock (abi.ntohl raw.len) w1 q.payload rest live len stream1 in
              let kept2 = read_all_keeps k sock sock both (abi.ntohl raw.len) w1 second in
              (w2, ground (arith, first, second, sent.magic), stream2, kept2 ∙ kept1)
          | inr other ↦
              let none_left : length q.payload ≡ 0 = ground (arith, sent.follows) in
              (
                w1,
                ground (arith, first, sent.magic),
                stream1 ∙ ap (λ x. x ++ rest) (length-zero q.payload none_left),
                kept1,
              )
        ]

    -- `NbdRequestDone` on the message of a request, whatever its buffer has become.
    pub nbd_request_done_sent :
        (q : SentRequest) (buffer : List ℕ) (w : k.World)
        → (w' : k.World) × (nbd_request_done abi k
              (message_of abi sock (abi.decode_request q.header) buffer)
              0
              w
            ≡ done w')
          × (k.incoming w' sock ≡ k.incoming w sock)
          × (k.outgoing w' sock ≡ k.outgoing w sock ++ answer_to q buffer)
    unfolding nbd_request_done answer_to message_of
    nbd_request_done_sent q buffer w =
        let (w', put, out) =
          nbd_request_done_returns abi k sock (abi.decode_request q.header) buffer 0 w live in
        (
          w',
          put,
          write_all_keeps k sock sock both
              (reply_bytes abi (message_of abi sock (abi.decode_request q.header) buffer) 0) w put,
          out,
        )
