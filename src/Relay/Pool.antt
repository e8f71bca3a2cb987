-- ===== src/Relay/Pool.antt =====
-- final_project/concrete/src/atlas_ThreadPool/atlas_ThreadPool.cpp: the relay whose thread pool sends the messages,
-- with its reactor, its workers and their queue.
use private_distributed_clou.Prelude.{
  ℕ, ◌+◌, ◌*◌, ◌≡◌, Bool, true, false, Option, none, some, List, [], ◌∷◌, ◌++◌, ◌==◌, if◌then◌else◌,
  slice, ℕ_discrete,
}
use private_distributed_clou.Run.{Run, done, fault, running, ◌>>=◌}
use private_distributed_clou.Assoc
use private_distributed_clou.Net.{Kernel, read_all}
use private_distributed_clou.Nbd.{NbdAbi, NbdRequest, NbdMessage, nbd_request_read}
use private_distributed_clou.Host.Reply.{load32}
use private_distributed_clou.ThreadPool.{bad_apple_status}
use private_distributed_clou.ThreadPool.Workers.{Pool, Works, new_pool, submit}
use private_distributed_clou.Relay.{
  RelayHeader, RelayMessage, Pending, convert_to_atlas, relay_iot_handle,
}

-- `sendmsg(sockfd, &msg, 0)` on a message: the number of bytes sent, or `none` for -1.
abbrev pub SendCall : Type 0
SendCall = RelayMessage → Option ℕ

-- What `SendMsgWrapper` returns, that is what `sendmsg` returns. -1 is `BADAPPLE` too.
unfoldable pub send_status : SendCall → RelayMessage → ℕ
send_status sendmsg m = elim (sendmsg m) [ none ↦ bad_apple_status | some n ↦ n ]

-- What `SendMsgWrapper` is given: the socket, the header, and the address of the request.
pub record SendInfo : Type 0 where
  pub sockfd : ℕ
  pub header : RelayHeader
  pub req : ℕ

-- The memory that the reactor and the workers share, with what was sent: the requests, which of them were handed to
-- `sendmsg` since they were read, and the messages that it was given.
pub record Memory : Type 0 where
  pub pending : Pending
  pub handed : ℕ → Bool
  pub sent : List RelayMessage

-- `handed` with another entry for one address.
abbrev pub set_handed : (ℕ → Bool) → ℕ → Bool → ℕ → Bool
set_handed handed address b j = if address == j then b else handed j

-- The message of `SendMsgWrapper(info)`, from what is at the address `info.req`.
unfoldable pub gather_message : NbdAbi → SendInfo → NbdRequest → RelayMessage
gather_message abi info r = record {
  sockfd = info.sockfd;
  header = info.header;
  payload = if r.req_type == abi.cmd_write then slice 0 r.data_len r.data_buf else [];
}

-- `SendMsgWrapper(info)` behind the look at `info.req`, which may point to no request.
unfoldable pub send_found :
    NbdAbi → SendCall → SendInfo → Option NbdMessage → Memory → ℕ × Run Memory
unfolding gather_message send_status
send_found abi sendmsg info none mem = (0, fault)
send_found abi sendmsg info (some m) mem =
    let message = gather_message abi info m.nbd_req in
    (
      send_status sendmsg message,
      done (record mem {
        handed = set_handed mem.handed info.req true;
        sent = mem.sent ++ (message ∷ []);
      }),
    )

-- `Function<int(void)>(&SendMsgWrapper, info)`.
unfoldable pub send_function : NbdAbi → SendCall → SendInfo → Run Memory → ℕ × Run Memory
unfolding send_found
send_function abi sendmsg info (done mem) =
    send_found abi sendmsg info (Assoc.find ℕ_discrete info.req mem.pending) mem
send_function abi sendmsg info fault = (0, fault)
send_function abi sendmsg info running = (0, running)

-- The pool, whose world is the memory, and the kernel.
pub record RelayPool (k : Kernel) : Type 0 where
  pub tp : Pool (Run Memory)
  pub io : k.World

-- The program at the call of `Run`, with `num_of_threads` workers.
unfoldable pub new_relay : {k : Kernel} → ℕ → k.World → RelayPool k
new_relay num_of_threads io = record {
  tp = new_pool num_of_threads (done (record { pending = []; handed = λ j. false; sent = [] }));
  io = io;
}

module _ (abi : NbdAbi) (k : Kernel) (malloced : ℕ → List ℕ) (sendmsg : SendCall)
    (socfd : ℕ → ℕ) where
  -- `NbdHandle(socfd)` behind `NbdRequestRead`, which has put the request to `address`; `new Task` puts the task
  -- of the message to `task`.
  unfoldable pub request_in : ℕ → ℕ → NbdMessage × k.World → Memory → RelayPool k → RelayPool k
  unfolding send_function
  request_in address task r mem s =
      let info : SendInfo = record {
        sockfd = socfd 1;
        header = convert_to_atlas address r.0.nbd_req;
        req = address;
      } in
      record {
        tp = submit task (send_function abi sendmsg info) (record (s.tp) {
          world = done (record mem {
            pending = Assoc.insert ℕ_discrete address r.0 mem.pending;
            handed = set_handed mem.handed address false;
          });
        });
        io = r.1;
      }

  -- `NbdHandle(socfd)`.
  unfoldable pub pooled_nbd_handle : ℕ → ℕ → RelayPool k → Run (RelayPool k)
  unfolding request_in
  pooled_nbd_handle address task s = s.tp.world >>= λ mem.
      nbd_request_read abi k malloced (socfd 0) s.io >>= λ r. done (request_in address task r mem s)

  -- `IotHandle(socfd)` behind the reply, which has taken the request out and left `pending`.
  unfoldable pub reply_out : Pending × k.World → Memory → RelayPool k → RelayPool k
  reply_out r mem s = record {
    tp = record (s.tp) { world = done (record mem { pending = r.0 }) };
    io = r.1;
  }

  -- `IotHandle(socfd)`.
  unfoldable pub pooled_iot_handle : RelayPool k → Run (RelayPool k)
  unfolding reply_out
  pooled_iot_handle s = s.tp.world >>= λ mem.
      relay_iot_handle abi k socfd mem.pending s.io >>= λ r. done (reply_out r mem s)

  -- The address in the header of the reply that comes next.
  unfoldable pub reply_address : RelayPool k → Run ℕ
  reply_address s = read_all k (socfd 1) 24 s.io >>= λ head.
      done (load32 head.0 + 4294967296 * load32 (slice 4 4 head.0))

  -- A handler of the reactor returns, or a worker or a notification takes a step; `ShutDown` is not called. `malloc`
  -- gives an address at which no request is, and the device replies only to a message that it was sent.
  pub data Step (s : RelayPool k) : RelayPool k → Type 0 where
    reads :
        (address task : ℕ) (mem : Memory) (t : RelayPool k)
        → s.tp.world ≡ done mem
        → Assoc.find ℕ_discrete address mem.pending ≡ none
        → pooled_nbd_handle address task s ≡ done t
        → Step s t
    answers :
        (address : ℕ) (mem : Memory) (t : RelayPool k)
        → s.tp.world ≡ done mem
        → reply_address s ≡ done address
        → mem.handed address ≡ true
        → pooled_iot_handle s ≡ done t
        → Step s t
    works : (tp : Pool (Run Memory)) → Works s.tp tp → Step s (record s { tp = tp })

  pub data Reach (num_of_threads : ℕ) (io : k.World) : RelayPool k → Type 0 where
    start : Reach num_of_threads io (new_relay num_of_threads io)
    later : {s t : RelayPool k} → Reach num_of_threads io s → Step s t → Reach num_of_threads io t

  -- Steps, one after the other.
  pub data Steps (s : RelayPool k) : RelayPool k → Type 0 where
    at_start : Steps s s
    next : {t u : RelayPool k} → Steps s t → Step t u → Steps s u
