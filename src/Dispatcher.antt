-- ===== src/Dispatcher.antt =====
-- final_project/concrete/src/RequestDispatcher/RequestDispatcher.hpp and RequestDispatcher.cpp: the table
-- of the requests that wait for replies, and the handlers that the reactor calls.
pub mod Admitted
pub mod Answers
pub mod History
pub mod Returns
pub mod Served
pub mod Serving
pub mod Table
pub mod Writes
use private_distributed_clou.Prelude.{
  ℕ, ◌≡◌, none, some, arith, List, [], ◌==◌, if◌then◌else◌, ℕ_discrete,
}
use private_distributed_clou.Run.{Run, done, fault, running, ◌>>=◌}
use private_distributed_clou.Net.{Kernel}
use private_distributed_clou.Assoc
use private_distributed_clou.Factory.{Factory}
use private_distributed_clou.Factory
use private_distributed_clou.Nbd.{NbdAbi, NbdMessage, nbd_request_read}
use private_distributed_clou.Command.{SendMsgInfo, Command, read_request, write_request}
use private_distributed_clou.Host.{RequestHost, create_host, distribute}
use private_distributed_clou.Host.Reply.{peek, read_reply}

-- What the constructor of `RequestDispatcher` registers with the factory singleton.
unfoldable pub command_factory : NbdAbi → Factory Command ℕ SendMsgInfo
command_factory abi =
    Factory.add ℕ_discrete read_request abi.cmd_read
      (Factory.add ℕ_discrete write_request abi.cmd_write Factory.empty_factory)

-- The factory makes a `ReadRequest` for a read, a `WriteRequest` for a write, and for any other type
-- of request calls a null pointer.
pub create-command_factory :
    (abi : NbdAbi) (t : ℕ) (info : SendMsgInfo)
    → Factory.create ℕ_discrete t info (command_factory abi) ≡ (
        if t == abi.cmd_read
        then some (read_request info)
        else if t == abi.cmd_write
        then some (write_request info)
        else none)
unfolding command_factory Factory.create Factory.add Factory.empty_factory Assoc.find Assoc.insert
create-command_factory abi t info = ground (arith, abi.distinct)

-- `class RequestDispatcher`, whose only field is `m_activeRequests`, with the static `req_uid` of
-- `RequestHost::Create`.
pub record RequestDispatcher : Type 0 where
  pub active_requests : List (ℕ × RequestHost)
  pub next_uid : ℕ

-- A new dispatcher in a new process.
unfoldable pub new_dispatcher : RequestDispatcher
new_dispatcher = record { active_requests = []; next_uid = 0 }

-- A request enters the table, and its jobs are started.
unfoldable pub admit :
    RequestDispatcher → (ℕ → ℕ) → NbdMessage → RequestDispatcher × List SendMsgInfo
admit d socket m =
    let (host, next_uid) = create_host d.next_uid m in
    (
      record {
        active_requests = Assoc.insert ℕ_discrete host.req_uid host d.active_requests;
        next_uid = next_uid;
      },
      distribute host socket,
    )

-- The entry of a request after one reply to it.
unfoldable pub settle : RequestDispatcher → ℕ → RequestHost → ℕ → RequestDispatcher
settle d uid host code = record d {
  active_requests =
      if code == 1
      then Assoc.erase ℕ_discrete uid d.active_requests
      else Assoc.insert ℕ_discrete uid host d.active_requests;
}

module _ (abi : NbdAbi) (k : Kernel) where
  -- `NbdRequestsHandle(socket)`: the dispatcher, the jobs started, and the world.
  unfoldable pub nbd_requests_handle :
      (ℕ → List ℕ)
      → RequestDispatcher
      → (ℕ → ℕ)
      → k.World
      → Run (RequestDispatcher × List SendMsgInfo × k.World)
  unfolding admit
  nbd_requests_handle malloced d socket w = nbd_request_read abi k malloced (socket 0) w >>= λ r.
      let (d', jobs) = admit d socket r.0 in done (d', jobs, r.1)

  -- `IotHandle(socket)`. For a number that is not in the table, `operator[]` gives a null pointer, and
  -- `ReadReaply` is called through it.
  unfoldable pub iot_handle : RequestDispatcher → ℕ → k.World → Run (RequestDispatcher × k.World)
  unfolding settle
  iot_handle d fd w = peek k fd w >>= λ peeked.
      elim (Assoc.find ℕ_discrete peeked.0 d.active_requests) [
        | none ↦ fault
        | some host ↦
            read_reply abi k host fd peeked.1 >>= λ r. done (settle d peeked.0 r.0 r.1, r.2)
      ]
