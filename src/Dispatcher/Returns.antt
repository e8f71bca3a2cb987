-- ===== src/Dispatcher/Returns.antt =====
-- RequestDispatcher::IotHandle on sockets whose calls do not fail.
use private_distributed_clou.Prelude.{
  ℕ, ◌≤◌, ◌≡◌, ◌⊎◌, inl, inr, refl, ap, sym, ◌∙◌, Bool, true, false, none, some, ◌<◌, ◌*◌, ◌^◌,
  List, [], ◌∷◌, ◌++◌, take, length, ◌==◌, if◌then◌else◌, arith, ℕ_discrete, Bool-cases,
}
use private_distributed_clou.Run.{done, fault, done_parts}
use private_distributed_clou.Assoc
use private_distributed_clou.Net.{Kernel, receive_loop, recv_all, read_all}
use private_distributed_clou.Net.Live.{IsLive, write_all_returns}
use private_distributed_clou.Net.Duplex.{IsDuplex, read_all_keeps, write_all_keeps}
use private_distributed_clou.Nbd.{NbdAbi, reply_bytes, nbd_request_done}
use private_distributed_clou.Nbd.Returns.{read_known}
use private_distributed_clou.Command.{header_size}
use private_distributed_clou.Host.{RequestHost, frag_size, fragment_count}
use private_distributed_clou.Host.Reply.{
  load32, load_header, peek, read_reply, receive_data, close_reply, take_reply, fragment_position,
  is_answered,
}
use private_distributed_clou.Dispatcher.{RequestDispatcher, settle, iot_handle}

-- A peek of four bytes sees all of them, where the stream has as many.
pub record PeeksNumber (k : Kernel) (fd : ℕ) : Type 0 where
  pub peeks :
      (w : k.World)
      → 4 ≤ length (k.incoming w fd)
      → k.peek fd 4 w ≡ (some (take 4 (k.incoming w fd)), w)

-- `Peek` gives the number at the front of the stream.
peek_known :
    (k : Kernel) (fd : ℕ) (w : k.World) (header rest : List ℕ)
    → PeeksNumber k fd
    → 4 ≤ length header
    → k.incoming w fd ≡ header ++ rest
    → peek k fd w ≡ done (load32 header, w)
unfolding peek recv_all receive_loop load32
peek_known k fd w [] rest whole size stream = absurd (omega arith)
peek_known k fd w (a ∷ []) rest whole size stream = absurd (omega arith)
peek_known k fd w (a ∷ b ∷ []) rest whole size stream = absurd (omega arith)
peek_known k fd w (a ∷ b ∷ c ∷ []) rest whole size stream = absurd (omega arith)
peek_known k fd w (a ∷ b ∷ c ∷ d ∷ more) rest whole size stream =
    let seen : k.peek fd 4 w ≡ (some (a ∷ b ∷ c ∷ d ∷ []), w) =
      whole.peeks w (omega (arith, ap length stream))
      ∙ ap (λ (bs : List ℕ). (some (take 4 bs), w)) stream in
    ground (arith, seen)

recv_known :
    (k : Kernel) (fd count : ℕ) (w : k.World) (bs rest : List ℕ)
    → IsLive k fd
    → length bs ≡ count
    → k.incoming w fd ≡ bs ++ rest
    → (w' : k.World) × (recv_all k false fd count w ≡ done (bs, w')) × (k.incoming w' fd ≡ rest)
unfolding recv_all read_all
recv_known k fd count w bs rest live len stream = read_known k fd count w bs rest live len stream

nil_of_length : (bs : List ℕ) → length bs ≡ 0 → bs ≡ []
nil_of_length [] e = refl
nil_of_length (b ∷ bs) e = absurd (omega (arith, e))

-- The data that follow the header of a reply: one fragment for a read, and else none.
receive_known :
    (abi : NbdAbi) (k : Kernel) (host : RequestHost) (fd : ℕ) (w : k.World) (body rest : List ℕ)
    → IsLive k fd
    → length body ≡ (if host.nbq_req.req_type == abi.cmd_read then frag_size else 0)
    → k.incoming w fd ≡ body ++ rest
    → (w' : k.World) × (receive_data abi k host fd w ≡ done (body, w')) × (k.incoming w' fd ≡ rest)
unfolding receive_data
receive_known abi k host fd w body rest live len stream =
    elim (Bool-cases (host.nbq_req.req_type == abi.cmd_read)) [
      | inl reads ↦
          rw reads (recv_known k fd frag_size w body rest live (ground (arith, reads, len)) stream)
      | inr other ↦
          let empty : body ≡ [] = nil_of_length body (ground (arith, other, len)) in
          (w, ground (arith, other, empty), stream ∙ ap (λ bs. bs ++ rest) empty)
    ]

-- `ReadReaply`, when the fragment was the last one, and when it was not.
read_reply_last :
    (abi : NbdAbi) (k : Kernel) (host after : RequestHost) (fd : ℕ) (header body : List ℕ)
    (w wh w1 w' : k.World)
    → recv_all k false fd header_size w ≡ done (header, wh)
    → receive_data abi k host fd wh ≡ done (body, w1)
    → take_reply abi host (load_header header).fragment_uid body ≡ some after
    → is_answered after ≡ true
    → nbd_request_done abi k after.message 0 w1 ≡ done w'
    → read_reply abi k host fd w ≡ done (after, 1, w')
unfolding read_reply close_reply
read_reply_last abi k host after fd header body w wh w1 w' got received taken all wrote =
    rw (got, received, taken) (ground (arith, all, wrote))

read_reply_more :
    (abi : NbdAbi) (k : Kernel) (host after : RequestHost) (fd : ℕ) (header body : List ℕ)
    (w wh w1 : k.World)
    → recv_all k false fd header_size w ≡ done (header, wh)
    → receive_data abi k host fd wh ≡ done (body, w1)
    → take_reply abi host (load_header header).fragment_uid body ≡ some after
    → is_answered after ≡ false
    → read_reply abi k host fd w ≡ done (after, 0, w1)
unfolding read_reply close_reply
read_reply_more abi k host after fd header body w wh w1 got received taken more =
    rw (got, received, taken) (ground (arith, more))

recv_keeps :
    (k : Kernel) (fd other count : ℕ) (w : k.World) {bs : List ℕ} {w' : k.World}
    → IsDuplex k fd other
    → recv_all k false fd count w ≡ done (bs, w')
    → k.outgoing w' other ≡ k.outgoing w other
unfolding recv_all read_all
recv_keeps k fd other count w both e = read_all_keeps k fd other both count w e

receive_keeps :
    (abi : NbdAbi) (k : Kernel) (host : RequestHost) (fd other : ℕ) (w : k.World) {body : List ℕ}
    {w' : k.World}
    → IsDuplex k fd other
    → receive_data abi k host fd w ≡ done (body, w')
    → k.outgoing w' other ≡ k.outgoing w other
unfolding receive_data
receive_keeps abi k host fd other w both e = by_type (host.nbq_req.req_type == abi.cmd_read) e
  where
    by_type :
        (b : Bool) {body : List ℕ} {w' : k.World}
        → (if b then recv_all k false fd frag_size w else done ([], w)) ≡ done (body, w')
        → k.outgoing w' other ≡ k.outgoing w other
    by_type true e' = recv_keeps k fd other frag_size w both e'
    by_type false e' = ap (λ x. k.outgoing x other) (sym ((done_parts e').1))

-- A reply, on sockets whose calls do not fail and keep their directions apart and with its number visible to the
-- peek: where the stream holds a header with the number of an entry, and then one fragment if the
-- entry is a read, which fits into its buffer, `IotHandle` returns and leaves the rest of the stream. When that
-- was the last reply the entry waited for, the entry is removed and the block device has got its
-- reply; else the entry is the host after the reply, and the block device has got nothing.
pub iot_handle_returns :
    (abi : NbdAbi) (k : Kernel) (d : RequestDispatcher) (fd : ℕ) (w : k.World)
    (host after : RequestHost) (header body rest : List ℕ)
    → ((sock : ℕ) → IsLive k sock)
    → ((a b : ℕ) → IsDuplex k a b)
    → PeeksNumber k fd
    → k.incoming w fd ≡ header ++ (body ++ rest)
    → length header ≡ header_size
    → Assoc.find ℕ_discrete (load32 header) d.active_requests ≡ some host
    → length body ≡ (if host.nbq_req.req_type == abi.cmd_read then frag_size else 0)
    → take_reply abi host (load_header header).fragment_uid body ≡ some after
    → (w' : k.World) × (k.incoming w' fd ≡ rest)
      × (((is_answered after ≡ true)
            × (iot_handle abi k d fd w
                ≡ done (
                  record d {
                    active_requests = Assoc.erase ℕ_discrete (load32 header) d.active_requests;
                  },
                  w',
                ))
            × (k.outgoing w' after.message.nbd_sock
                ≡ k.outgoing w after.message.nbd_sock ++ reply_bytes abi after.message 0))
          ⊎ ((is_answered after ≡ false)
              × (iot_handle abi k d fd w
                  ≡ done (
                    record d {
                      active_requests =
                          Assoc.insert ℕ_discrete (load32 header) after d.active_requests;
                    },
                    w',
                  ))
              × (k.outgoing w' after.message.nbd_sock ≡ k.outgoing w after.message.nbd_sock)))
unfolding iot_handle nbd_request_done settle
iot_handle_returns abi k d fd w host after header body rest live apart whole stream size found len
      taken =
    let sock = after.message.nbd_sock in
    let seen = peek_known k fd w header (body ++ rest) whole (omega (arith, size)) stream in
    let (wh, got, stream1) =
      recv_known k fd header_size w header (body ++ rest) (live fd) size stream in
    let (w1, received, stream2) = receive_known abi k host fd wh body rest (live fd) len stream1 in
    let (w', wrote, out) =
      write_all_returns k sock (reply_bytes abi after.message 0) w1 (live sock) in
    let kept : k.outgoing w1 sock ≡ k.outgoing w sock =
      receive_keeps abi k host fd sock wh (apart fd sock) received
      ∙ recv_keeps k fd sock header_size w (apart fd sock) got in
    elim (Bool-cases (is_answered after)) [
      | inl all ↦ (
        w',
        write_all_keeps k sock fd (apart sock fd) (reply_bytes abi after.message 0) w1 wrote
            ∙ stream2,
        inl (
          all,
          rw seen (
              ground (
                arith,
                found,
                read_reply_last abi k host after fd header body w wh w1 w' got received taken all
                    wrote,
              )),
          out ∙ ap (λ x. x ++ reply_bytes abi after.message 0) kept,
        ),
      )
      | inr more ↦ (
        w1,
        stream2,
        inr (
          more,
          rw seen (
              ground (
                arith,
                found,
                read_reply_more abi k host after fd header body w wh w1 got received taken more,
              )),
          kept,
        ),
      )
    ]

take_reply_overruns :
    (abi : NbdAbi) (host : RequestHost) (fragment : ℕ) (body : List ℕ)
    → host.nbq_req.req_type ≡ abi.cmd_read
    → length host.nbq_req.data_buf ≡ host.nbq_req.data_len
    → length body ≡ frag_size
    → fragment_count host.nbq_req ≤ fragment
    → fragment < 2 ^ 22
    → take_reply abi host fragment body ≡ none
unfolding take_reply
take_reply_overruns abi host fragment body e buf len behind small =
    let at : fragment_position fragment ≡ fragment * frag_size = omega arith in ground (arith, at)

read_reply_overruns :
    (abi : NbdAbi) (k : Kernel) (host : RequestHost) (fd : ℕ) (header body : List ℕ)
    (w wh w1 : k.World)
    → recv_all k false fd header_size w ≡ done (header, wh)
    → receive_data abi k host fd wh ≡ done (body, w1)
    → take_reply abi host (load_header header).fragment_uid body ≡ none
    → read_reply abi k host fd w ≡ fault
unfolding read_reply close_reply
read_reply_overruns abi k host fd header body w wh w1 got received overrun =
    rw (got, received, overrun) refl

-- A reply to a read whose fragment number lies behind the fragments of the request: nothing compares it with them,
-- so that the data are received behind the end of the buffer.
pub reply_overruns :
    (abi : NbdAbi) (k : Kernel) (d : RequestDispatcher) (fd : ℕ) (w : k.World) (host : RequestHost)
    (header body rest : List ℕ)
    → IsLive k fd
    → PeeksNumber k fd
    → k.incoming w fd ≡ header ++ (body ++ rest)
    → length header ≡ header_size
    → Assoc.find ℕ_discrete (load32 header) d.active_requests ≡ some host
    → host.nbq_req.req_type ≡ abi.cmd_read
    → length host.nbq_req.data_buf ≡ host.nbq_req.data_len
    → length body ≡ frag_size
    → fragment_count host.nbq_req ≤ (load_header header).fragment_uid
    → (load_header header).fragment_uid < 2 ^ 22
    → iot_handle abi k d fd w ≡ fault
unfolding iot_handle
reply_overruns abi k d fd w host header body rest live whole stream size found e buf len behind
      small =
    let seen = peek_known k fd w header (body ++ rest) whole (omega (arith, size)) stream in
    let (wh, got, stream1) = recv_known k fd header_size w header (body ++ rest) live size stream in
    let whole_body : length body
        ≡ (if host.nbq_req.req_type == abi.cmd_read then frag_size else 0) =
      ground (arith, e, len) in
    let (w1, received, stream2) =
      receive_known abi k host fd wh body rest live whole_body stream1 in
    let overrun : take_reply abi host (load_header header).fragment_uid body ≡ none =
      take_reply_overruns abi host (load_header header).fragment_uid body e buf len behind small in
    rw seen (
      ground
        (arith, found, read_reply_overruns abi k host fd header body w wh w1 got received overrun))
