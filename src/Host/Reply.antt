-- ===== src/Host/Reply.antt =====
-- RequestHost::ReadReaply and RequestHost::Peek: the answers of the IoT devices.
use private_distributed_clou.Prelude.{
  ℕ, ◌+◌, ◌*◌, Bool, true, false, Option, none, some, List, [], ◌∷◌, leb, ◌==◌, if◌then◌else◌, u32,
  length, slice,
}
use private_distributed_clou.Run.{Run, done, fault, ◌>>=◌}
use private_distributed_clou.Memory.{write_at}
use private_distributed_clou.IntSet
use private_distributed_clou.Net.{Kernel, recv_all}
use private_distributed_clou.Nbd.{NbdAbi, nbd_request_done}
use private_distributed_clou.Command.{AtlasHeader, header_size}
use private_distributed_clou.Host.{RequestHost, frag_size}

-- A uint32_t of memory, on a little-endian host.
unfoldable pub load32 : List ℕ → ℕ
load32 [] = 0
load32 (a ∷ []) = 0
load32 (a ∷ b ∷ []) = 0
load32 (a ∷ b ∷ c ∷ []) = 0
load32 (a ∷ b ∷ c ∷ d ∷ rest) = a + 256 * b + 65536 * c + 16777216 * d

-- The `AtlasHeader_t` that 24 bytes are.
unfoldable pub load_header : List ℕ → AtlasHeader
load_header bs = record {
  request_uid = load32 bs;
  fragment_uid = load32 (slice 4 4 bs);
  alarm_uid = load32 (slice 8 4 bs);
  iot_offset = load32 (slice 12 4 bs);
  type = load32 (slice 16 4 bs);
  len = load32 (slice 20 4 bs);
}

-- `m_nbq_req->dataBuf + atlas_header.m_fragmentUid * Consts::frag_size`, as a position.
abbrev pub fragment_position : ℕ → ℕ
fragment_position fragment = u32 (fragment * frag_size)

-- The data of a fragment, received into the buffer. `none` is a write behind its end.
unfoldable pub store_fragment : RequestHost → ℕ → List ℕ → Option RequestHost
store_fragment host fragment bytes =
    let request = host.nbq_req in
    if leb (fragment_position fragment + length bytes) (length request.data_buf)
    then some (record host {
      message = record (host.message) {
        nbd_req = record request {
          data_buf = write_at (fragment_position fragment) bytes request.data_buf;
        };
      };
    })
    else none

-- `fragmentation_set.erase(atlas_header.m_fragmentUid)`.
unfoldable pub forget_fragment : RequestHost → ℕ → RequestHost
forget_fragment host fragment = record host {
  fragmentation_set = IntSet.erase fragment host.fragmentation_set;
}

-- One reply as the host takes it: for a read its data go to the buffer, then the fragment is struck off.
unfoldable pub take_reply : NbdAbi → RequestHost → ℕ → List ℕ → Option RequestHost
unfolding store_fragment forget_fragment
take_reply abi host fragment bytes =
    if host.nbq_req.req_type == abi.cmd_read
    then elim (store_fragment host fragment bytes) [
      | none ↦ none
      | some stored ↦ some (forget_fragment stored fragment)
    ]
    else some (forget_fragment host fragment)

-- What the test of `fragmentation_set.empty()` decides, on the host after the reply.
abbrev pub is_answered : RequestHost → Bool
is_answered host = IntSet.is_empty host.fragmentation_set

module _ (abi : NbdAbi) (k : Kernel) where
  -- The data behind the header of a reply to a read.
  unfoldable pub receive_data : RequestHost → ℕ → k.World → Run (List ℕ × k.World)
  receive_data host fd w =
      if host.nbq_req.req_type == abi.cmd_read
      then recv_all k false fd frag_size w
      else done ([], w)

  -- The end of `ReadReaply`: the request is answered when its last fragment was.
  unfoldable pub close_reply : Option RequestHost → k.World → Run (RequestHost × ℕ × k.World)
  close_reply none w = fault
  close_reply (some host) w =
      if is_answered host
      then (nbd_request_done abi k host.message 0 w >>= λ w'. done (host, 1, w'))
      else done (host, 0, w)

  -- `ReadReaply(socket)`: the host, the value returned, and the world.
  unfoldable pub read_reply : RequestHost → ℕ → k.World → Run (RequestHost × ℕ × k.World)
  unfolding receive_data close_reply
  read_reply host fd w = recv_all k false fd header_size w >>= λ head.
      let fragment = (load_header head.0).fragment_uid in
      receive_data host fd head.1 >>= λ body.
      close_reply (take_reply abi host fragment body.0) body.1

-- `Peek(socket)`.
unfoldable pub peek : (k : Kernel) → ℕ → k.World → Run (ℕ × k.World)
peek k fd w = recv_all k true fd 4 w >>= λ r. done (load32 r.0, r.1)
