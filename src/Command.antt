-- ===== src/Command.antt =====
-- final_project/concrete/src/command/command.hpp and command.cpp: the messages to the IoT devices and
-- the two commands that send them.
use private_distributed_clou.Prelude.{ℕ, Bool, List, [], ◌∷◌, map, take, slice, if◌then◌else◌}
use private_distributed_clou.Nbd.{NbdRequest}

-- `AtlasHeader_t`: six uint32_t.
pub record AtlasHeader : Type 0 where
  pub request_uid : ℕ
  pub fragment_uid : ℕ
  pub alarm_uid : ℕ
  pub iot_offset : ℕ
  pub type : ℕ
  pub len : ℕ

-- `sizeof(AtlasHeader_t)`.
abbrev pub header_size : ℕ
header_size = 24

-- What an `iov_base` of this program points to: nothing, the `atlas_header` of the same
-- `SendMsgInfo_t`, or the request's `dataBuf` from some byte on.
pub data IovBase : Type 0 where
  null header : IovBase
  buffer : ℕ → IovBase

pub record Iovec : Type 0 where
  pub iov_base : IovBase
  pub iov_len : ℕ

-- The fields of `struct msghdr` that are set; `msg_iov` points to the `payload` beside it, or nowhere.
pub record Msghdr : Type 0 where
  pub msg_iov : Bool
  pub msg_iovlen : ℕ

-- `SendMsgInfo_t`. `start_data_buff` is a position in `req->dataBuf`.
pub record SendMsgInfo : Type 0 where
  pub sockfd : ℕ
  pub atlas_header : AtlasHeader
  pub req : NbdRequest
  pub start_data_buff : ℕ
  pub msg : Msghdr
  pub payload0 : Iovec
  pub payload1 : Iovec

-- What one `iovec` adds to the stream.
pub data Piece : Type 0 where
  header_bytes : AtlasHeader → Piece
  data_bytes : List ℕ → Piece

-- One call `sendmsg(sockfd, &msg, 0)`, with all that the vector points to.
pub record Sent : Type 0 where
  pub sockfd : ℕ
  pub pieces : List Piece

abbrev piece : SendMsgInfo → Iovec → Piece
piece info v = elim v.iov_base [
  | IovBase.null ↦ data_bytes []
  | IovBase.header ↦ header_bytes info.atlas_header
  | IovBase.buffer p ↦ data_bytes (slice p v.iov_len info.req.data_buf)
]

-- The first `msg_iovlen` vectors, gathered.
unfoldable pub gather : SendMsgInfo → List Piece
gather info =
    if info.msg.msg_iov
    then map (piece info) (take info.msg.msg_iovlen (info.payload0 ∷ info.payload1 ∷ []))
    else []

-- The two classes derived from `Command`; both hold the shared `m_info`.
pub data Command : Type 0 where
  read_request : SendMsgInfo → Command
  write_request : SendMsgInfo → Command

-- `sendmsg` as the commands use it: does the call for this message return -1?
abbrev pub SendFails : Type 0
SendFails = Sent → Bool

-- What `SendRequest` leaves: its return value, the message that it handed to `sendmsg`, and the
-- shared `m_info`.
pub record SendResult : Type 0 where
  pub status : ℕ
  pub sent : Sent
  pub info : SendMsgInfo

sendmsg_status : SendFails → Sent → ℕ
sendmsg_status fails s = if fails s then 1 else 0

-- `ReadRequest::SendRequest`.
unfoldable pub read_send : SendFails → SendMsgInfo → SendResult
unfolding sendmsg_status gather
read_send fails info =
    let s : Sent = record { sockfd = info.sockfd; pieces = gather info } in
    record { status = sendmsg_status fails s; sent = s; info = info }

-- The second vector that `WriteRequest::SendRequest` adds.
unfoldable pub with_data : SendMsgInfo → SendMsgInfo
with_data info = record info {
  payload1 = record {
    iov_base = IovBase.buffer info.start_data_buff;
    iov_len = info.atlas_header.len;
  };
  msg = record { msg_iov = info.msg.msg_iov; msg_iovlen = 2 };
}

-- `WriteRequest::SendRequest`.
unfoldable pub write_send : SendFails → SendMsgInfo → SendResult
unfolding with_data sendmsg_status gather
write_send fails info =
    let info' = with_data info in
    let s : Sent = record { sockfd = info'.sockfd; pieces = gather info' } in
    record { status = sendmsg_status fails s; sent = s; info = info' }

-- The virtual call `SendRequest()`.
unfoldable pub send_request : SendFails → Command → SendResult
unfolding read_send write_send
send_request fails (read_request info) = read_send fails info
send_request fails (write_request info) = write_send fails info
