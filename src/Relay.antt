-- ===== src/Relay.antt =====
-- final_project/concrete/src/atlas_ThreadPool/atlas_ThreadPool.cpp and atlas_main/atlas_main.cpp: the
-- servers that hand every request to one IoT device, and know the request again by its address.
pub mod Answers
pub mod FailedSends
pub mod Pool
pub mod Pooled
pub mod Rounds
pub mod Waiting
use private_distributed_clou.Prelude.{
  ℕ, ◌+◌, ◌*◌, ◌^◌, ◌<◌, ◌≡◌, ◌↔◌, refl, Option, none, some, List, [], ◌∷◌, ◌++◌, length, ◌==◌,
  if◌then◌else◌, u32, arith, slice, ℕ_discrete,
}
use private_distributed_clou.Run.{Run, done, fault, ◌>>=◌}
use private_distributed_clou.Assoc
use private_distributed_clou.Net.{Kernel, read_all}
use private_distributed_clou.Nbd.{
  NbdAbi, NbdRequest, NbdMessage, nbd_request_read, nbd_request_done,
}
use private_distributed_clou.Net.Live.{IsLive}
use private_distributed_clou.Nbd.Returns.{read_known}
use private_distributed_clou.Host.Reply.{load32}
use private_distributed_clou.Function.{bind_free}
use private_distributed_clou.Reactor.{Reactor, new_reactor, register_read_handler}
use private_distributed_clou.Server.{SocketCalls, SocketInit, port}

-- `AtlasHeader_t` of these two programs: a uint64_t and four uint32_t, 24 bytes. `m_alarmUid` is never set,
-- and is left out.
pub record RelayHeader : Type 0 where
  pub request_uid : ℕ
  pub iot_offset : ℕ
  pub type : ℕ
  pub len : ℕ

-- `ConvertToAtlas(request)`, for the request at an address.
unfoldable pub convert_to_atlas : ℕ → NbdRequest → RelayHeader
convert_to_atlas address r = record {
  request_uid = address;
  iot_offset = u32 r.offset;
  type = r.req_type;
  len = r.data_len;
}

-- The message that is handed to `sendmsg`: the header, and for a write the data.
pub record RelayMessage : Type 0 where
  pub sockfd : ℕ
  pub header : RelayHeader
  pub payload : List ℕ

-- `SendMsgWrapper(info)`, the job of the thread pool, and the same lines of `NbdHandle` in atlas_main.cpp.
unfoldable pub relay_message : NbdAbi → ℕ → ℕ → NbdRequest → RelayMessage
unfolding convert_to_atlas
relay_message abi sockfd address r = record {
  sockfd = sockfd;
  header = convert_to_atlas address r;
  payload = if r.req_type == abi.cmd_write then slice 0 r.data_len r.data_buf else [];
}

-- The requests in memory, by their addresses.
abbrev pub Pending : Type 0
Pending = List (ℕ × NbdMessage)

module _ (abi : NbdAbi) (k : Kernel) where
  -- `NbdHandle(socfd)`: the request is read to a new address, and its message is sent (atlas_main.cpp) or
  -- put in a job that sends it (atlas_ThreadPool.cpp).
  unfoldable pub relay_nbd_handle :
      (ℕ → List ℕ) → ℕ → (ℕ → ℕ) → Pending → k.World → Run (Pending × RelayMessage × k.World)
  unfolding relay_message
  relay_nbd_handle malloced address socfd pending w =
      nbd_request_read abi k malloced (socfd 0) w >>= λ r. done (
        Assoc.insert ℕ_discrete address r.0 pending,
        relay_message abi (socfd 1) address r.0.nbd_req,
        r.1,
      )

  -- The data of a reply, received into the buffer of a read.
  unfoldable pub relay_receive : ℕ → NbdMessage → k.World → Run (NbdMessage × k.World)
  relay_receive fd m w =
      if m.nbd_req.req_type == abi.cmd_read
      then (read_all k fd m.nbd_req.data_len w >>= λ r.
          done (record m { nbd_req = record (m.nbd_req) { data_buf = r.0 } }, r.1))
      else done (m, w)

  -- `IotHandle(socfd)`, from the request at the address `m_requestUid` on.
  unfoldable pub relay_answer : ℕ → ℕ → Pending → k.World → Run (Pending × k.World)
  unfolding relay_receive
  relay_answer fd address pending w = elim (Assoc.find ℕ_discrete address pending) [
    | none ↦ fault
    | some m ↦ relay_receive fd m w >>= λ r.
        nbd_request_done abi k r.0 0 r.1 >>= λ w'. done (Assoc.erase ℕ_discrete address pending, w')
  ]

  -- `IotHandle(socfd)`.
  unfoldable pub relay_iot_handle : (ℕ → ℕ) → Pending → k.World → Run (Pending × k.World)
  unfolding relay_answer
  relay_iot_handle socfd pending w = read_all k (socfd 1) 24 w >>= λ head.
      relay_answer (socfd 1) (load32 head.0 + 4294967296 * load32 (slice 4 4 head.0)) pending head.1

-- The device is asked for the address of the request exactly if this lies below 2 ^ 32, and otherwise for
-- another address; everything else of the header is the request's own.
pub convert_to_atlas_lem :
    (address : ℕ) (r : NbdRequest)
    → (((convert_to_atlas address r).iot_offset ≡ r.offset) ↔ (r.offset < 2 ^ 32))
      × ((convert_to_atlas address r).request_uid ≡ address)
      × ((convert_to_atlas address r).type ≡ r.req_type)
      × ((convert_to_atlas address r).len ≡ r.data_len)
unfolding convert_to_atlas
convert_to_atlas_lem address r = ((λ e. omega arith, λ lt. omega arith), refl, refl, refl)

-- `InitSocket(&sockfd, &servaddr, &cliaddr)`.
unfoldable pub relay_init_socket : {Io : Type 0} → SocketCalls Io → ℕ → Io → SocketInit Io
relay_init_socket calls servaddr io = elim (calls.socket io).0 [
  | none ↦ record { sockfd = none; servaddr = servaddr; status = 1; io = (calls.socket io).1 }
  | some fd ↦ record { sockfd = some fd; servaddr = port; status = 0; io = (calls.socket io).1 }
]

-- `main` up to its reactor: the array `socfd`, or `none` where it returns 1 or exits. The first argument is what
-- `NbdDevOpen` has returned, and `servaddr` is what the stack held.
unfoldable pub relay_connect :
    {Io : Type 0} → SocketCalls Io → Option ℕ → ℕ → Io → Option (ℕ × Option ℕ) × Io
unfolding relay_init_socket
relay_connect calls none servaddr io = (none, io)
relay_connect calls (some device) servaddr io =
    let made = relay_init_socket calls servaddr io in
    let connected = calls.connect made.sockfd made.servaddr made.io in
    (if connected.0 then some (device, made.sockfd) else none, connected.1)

-- The requests in memory, the messages that were made for the device, and the kernel.
pub record RelayWorld (k : Kernel) : Type 0 where
  pub pending : Pending
  pub messages : List RelayMessage
  pub io : k.World

-- A free function is called on no object.
abbrev pub Object : Type 0
Object = Unit {0}

module _ (abi : NbdAbi) (k : Kernel) (malloced : ℕ → List ℕ) (new_address : Pending → ℕ) where
  -- `&NbdHandle`, as the reactor calls it. It returns 1.
  unfoldable pub relay_nbd_callable : (ℕ → ℕ) → RelayWorld k → Run (ℕ × RelayWorld k)
  unfolding relay_nbd_handle
  relay_nbd_callable socfd w =
      relay_nbd_handle abi k malloced (new_address w.pending) socfd w.pending w.io >>= λ r.
      done (1, record { pending = r.0; messages = w.messages ++ (r.1 ∷ []); io = r.2 })

  -- `&IotHandle`, as the reactor calls it.
  unfoldable pub relay_iot_callable : (ℕ → ℕ) → RelayWorld k → Run (ℕ × RelayWorld k)
  unfolding relay_iot_handle
  relay_iot_callable socfd w = relay_iot_handle abi k socfd w.pending w.io >>= λ r.
      done (0, record { pending = r.0; messages = w.messages; io = r.1 })

  -- The reactor that `main` runs.
  unfoldable pub relay_reactor : (ℕ → ℕ) → Reactor (RelayWorld k) Object (ℕ → ℕ)
  unfolding relay_nbd_callable relay_iot_callable
  relay_reactor socfd =
      register_read_handler (socfd 1) (bind_free relay_iot_callable socfd)
        (register_read_handler (socfd 0) (bind_free relay_nbd_callable socfd) new_reactor)
