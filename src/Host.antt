-- ===== src/Host.antt =====
-- final_project/concrete/src/RequestHost/RequestHost.hpp and RequestHost.cpp: one request of the block
-- device, cut into fragments of 1024 bytes that are spread over 8 IoT devices.
pub mod Placement
pub mod Pooled
pub mod Race
pub mod Counts
pub mod Coverage
pub mod Replies
pub mod Reply
pub mod Completion
pub mod Defects
use private_distributed_clou.Prelude.{
  ℕ, zero, suc, ◌+◌, ◌*◌, ◌/◌, ◌%◌, true, false, none, some, List, [], ◌∷◌, ◌++◌, ltb,
  if◌then◌else◌, u32, ℕ_discrete,
}
use private_distributed_clou.Run.{Run, done, fault, running, ◌>>=◌}
use private_distributed_clou.IntSet
use private_distributed_clou.Factory.{Factory}
use private_distributed_clou.Factory
use private_distributed_clou.Nbd.{NbdRequest, NbdMessage}
use private_distributed_clou.Command.{
  header_size, IovBase, SendMsgInfo, Sent, Command, SendFails, send_request,
}

-- `Consts::frag_size` and `Consts::num_of_iot`.
abbrev pub frag_size : ℕ
frag_size = 1024

abbrev pub num_of_iot : ℕ
num_of_iot = 8

-- `class RequestHost`. The pointer `m_nbq_req` points to the first field of an `nbd_message_t`, which is
-- the `message` here. `fragmentation_set` is a `std::set<int>`, in ascending order.
pub record RequestHost : Type 0 where
  pub message : NbdMessage
  pub open message use {nbd_req as nbq_req}
  pub req_uid : ℕ
  pub fragmentation_set : List ℕ

-- `dataLen / Consts::frag_size`.
abbrev pub fragment_count : NbdRequest → ℕ
fragment_count r = r.data_len / frag_size

-- The loop of `Create`: `rounds` more numbers from `i` on.
unfoldable pub insert_fragments : ℕ → ℕ → List ℕ → List ℕ
insert_fragments zero i s = s
insert_fragments (suc rounds) i s = insert_fragments rounds (i + 1) (IntSet.insert i s)

-- `Create`, from the request that `NbdRequestRead` has returned and the static `req_uid`, to the new
-- host and the new `req_uid`.
unfoldable pub create_host : ℕ → NbdMessage → RequestHost × ℕ
unfolding insert_fragments
create_host next_uid message = (
  record {
    message = message;
    req_uid = next_uid;
    fragmentation_set = insert_fragments (fragment_count message.nbd_req) 0 [];
  },
  u32 (next_uid + 1),
)

-- `Distribute`: the information for the job of round `j`, whose first fragment is the one with number
-- `first_frag_indx` on the device. What `new SendMsgInfo_t` leaves unset is null or 0 here, and
-- `SendMsgWrapper` sets all of it before it is read.
unfoldable pub job_info : RequestHost → (ℕ → ℕ) → ℕ → ℕ → SendMsgInfo
job_info host socket j first_frag_indx = record {
  sockfd = socket (first_frag_indx % num_of_iot + 1);
  atlas_header = record {
    request_uid = host.req_uid;
    fragment_uid = j;
    alarm_uid = 0;
    iot_offset = u32 (first_frag_indx * frag_size) / num_of_iot;
    type = host.nbq_req.req_type;
    len = frag_size;
  };
  req = host.nbq_req;
  start_data_buff = j * frag_size;
  msg = record { msg_iov = false; msg_iovlen = 0 };
  payload0 = record { iov_base = IovBase.null; iov_len = 0 };
  payload1 = record { iov_base = IovBase.null; iov_len = 0 };
}

-- The loop of `Distribute`: each round starts one job of the thread pool.
unfoldable pub distribute_loop : RequestHost → (ℕ → ℕ) → ℕ → ℕ → ℕ → List SendMsgInfo
unfolding job_info
distribute_loop host socket zero j first_frag_indx = []
distribute_loop host socket (suc rounds) j first_frag_indx =
    job_info host socket j first_frag_indx
    ∷ distribute_loop host socket rounds (j + 1) (u32 (first_frag_indx + 1))

-- `num_of_iterations`.
unfoldable pub num_of_iterations : NbdRequest → ℕ
num_of_iterations r = if ltb (fragment_count r) num_of_iot then fragment_count r else num_of_iot

-- `Distribute`: the jobs that are handed to the thread pool, in this order. `first_frag_indx` is an
-- `int`, here by its bit pattern.
unfoldable pub distribute : RequestHost → (ℕ → ℕ) → List SendMsgInfo
unfolding distribute_loop num_of_iterations
distribute host socket =
    distribute_loop host socket (num_of_iterations host.nbq_req) 0
      (u32 (host.nbq_req.offset / frag_size))

-- The start of a round of `SendMsgWrapper`: the message is the header alone.
unfoldable pub with_header : SendMsgInfo → SendMsgInfo
with_header info = record info {
  payload0 = record { iov_base = IovBase.header; iov_len = header_size };
  msg = record { msg_iov = true; msg_iovlen = 1 };
}

-- The end of a round of `SendMsgWrapper`.
unfoldable pub advance : SendMsgInfo → SendMsgInfo
advance info = record info {
  atlas_header = record (info.atlas_header) {
    iot_offset = u32 (info.atlas_header.iot_offset + frag_size);
    fragment_uid = u32 (info.atlas_header.fragment_uid + num_of_iot);
  };
  start_data_buff = info.start_data_buff + num_of_iot * frag_size;
}

module _ (fac : Factory Command ℕ SendMsgInfo) (fails : SendFails) (host : RequestHost) where
  -- The loop of `SendMsgWrapper`: the messages handed to `sendmsg`, in order. What `SendRequest`
  -- returns is dropped, as in the source.
  unfoldable pub send_loop : ℕ → ℕ → SendMsgInfo → Run (List Sent)
  unfolding with_header advance
  send_loop zero i info = running
  send_loop (suc fuel) i info = elim (ltb i (fragment_count host.nbq_req)) [
    | false ↦ done []
    | true ↦ elim (Factory.create ℕ_discrete info.atlas_header.type (with_header info) fac) [
      | none ↦ fault
      | some command ↦
          let result = send_request fails command in
          send_loop fuel (u32 (i + num_of_iot)) (advance result.info) >>= λ later.
          done (result.sent ∷ later)
    ]
  ]

  -- `SendMsgWrapper`, the body of one job: its messages, and the 0 that it returns. A job makes at
  -- most one round for each fragment of the request, and one test more.
  unfoldable pub send_msg_wrapper : SendMsgInfo → Run (List Sent × ℕ)
  unfolding send_loop
  send_msg_wrapper info =
      send_loop (suc (fragment_count host.nbq_req)) info.atlas_header.fragment_uid info >>= λ sent.
      done (sent, 0)

  -- All jobs of a list, one after the other.
  unfoldable pub run_jobs : List SendMsgInfo → Run (List Sent)
  run_jobs [] = done []
  run_jobs (info ∷ jobs) =
      send_msg_wrapper info >>= λ first. run_jobs jobs >>= λ later. done (first.0 ++ later)
