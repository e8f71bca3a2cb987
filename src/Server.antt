-- ===== src/Server.antt =====
-- final_project/concrete/src/atlas_iots/atlas_iots.cpp: the server of the eight devices, which opens the sockets and
-- registers the handlers of RequestDispatcher with the reactor.
pub mod Connect
pub mod Handlers
pub mod History
pub mod Pooled
use private_distributed_clou.Prelude.{
  ℕ, zero, suc, ◌+◌, ◌-◌, Bool, true, false, Option, none, some, List, [], ◌∷◌, ◌++◌, if◌then◌else◌,
}
use private_distributed_clou.Run.{Run, done, fault, ◌>>=◌}
use private_distributed_clou.Net.{Kernel}
use private_distributed_clou.Nbd.{NbdAbi}
use private_distributed_clou.Command.{SendMsgInfo}
use private_distributed_clou.Dispatcher.{RequestDispatcher, nbd_requests_handle, iot_handle}
use private_distributed_clou.Function.{bind_member}
use private_distributed_clou.Reactor.{Reactor, new_reactor, register_read_handler}

-- socket(2) and connect(2), which takes a descriptor, or `none` for -1, and the port of an address.
pub record SocketCalls (Io : Type 0) : Type 0 where
  pub socket : Io → Option ℕ × Io
  pub connect : Option ℕ → ℕ → Io → Bool × Io

-- `PORT`.
abbrev pub port : ℕ
port = 29000

-- What `InitSocket` leaves: the descriptor, the port in `servaddr`, and its return value.
pub record SocketInit (Io : Type 0) : Type 0 where
  pub sockfd : Option ℕ
  pub servaddr : ℕ
  pub status : ℕ
  pub io : Io

-- `InitSocket(&sockfd, &servaddr, port)`. When there is no socket, `servaddr` keeps what it had.
unfoldable pub init_socket : {Io : Type 0} → SocketCalls Io → ℕ → ℕ → Io → SocketInit Io
init_socket calls servaddr p io = elim (calls.socket io).0 [
  | none ↦ record { sockfd = none; servaddr = servaddr; status = 1; io = (calls.socket io).1 }
  | some fd ↦ record { sockfd = some fd; servaddr = p; status = 0; io = (calls.socket io).1 }
]

-- The first loop of `main`, for the devices `i`, `i + 1`, …, of which there are `rounds`: their descriptors, or `none`
-- where it exits. What `InitSocket` returns is dropped.
unfoldable pub connect_devices :
    {Io : Type 0} → SocketCalls Io → ℕ → ℕ → ℕ → Io → Option (List (Option ℕ)) × Io
unfolding init_socket
connect_devices calls zero i servaddr io = (some [], io)
connect_devices calls (suc rounds) i servaddr io =
    let made = init_socket calls servaddr (port + (i - 1)) io in
    let connected = calls.connect made.sockfd made.servaddr made.io in
    let rest = connect_devices calls rounds (i + 1) made.servaddr connected.1 in
    if connected.0
    then (elim rest.0 [ none ↦ none | some fds ↦ some (made.sockfd ∷ fds) ], rest.1)
    else (none, connected.1)

-- `main` up to its reactor: the array `socfd`, or `none` where it returns 1 or exits. The first argument is what
-- `NbdDevOpen` has returned, and `servaddr` is what the stack held.
unfoldable pub open_server :
    {Io : Type 0} → SocketCalls Io → Option ℕ → ℕ → Io → Option (List (Option ℕ)) × Io
unfolding connect_devices
open_server calls none servaddr io = (none, io)
open_server calls (some device) servaddr io =
    let connected = connect_devices calls 8 1 servaddr io in
    (elim connected.0 [ none ↦ none | some fds ↦ some (some device ∷ fds) ], connected.1)

-- What a handler is bound to: the array `socfd`, or one descriptor.
pub data SocketArg : Type 0 where
  array : (ℕ → ℕ) → SocketArg
  descriptor : ℕ → SocketArg

-- The dispatcher `disp`, the jobs that the thread pool was given, and the kernel.
pub record World (k : Kernel) : Type 0 where
  pub disp : RequestDispatcher
  pub jobs : List SendMsgInfo
  pub io : k.World

-- There is one dispatcher, `disp`.
abbrev pub Object : Type 0
Object = Unit {0}

module _ (abi : NbdAbi) (k : Kernel) (malloced : ℕ → List ℕ) where
  -- `&RequestDispatcher::NbdRequestsHandle` on the array, as the reactor calls it.
  unfoldable pub nbd_callable : Object → SocketArg → World k → Run (ℕ × World k)
  nbd_callable disp (descriptor fd) w = fault
  nbd_callable disp (array socfd) w = nbd_requests_handle abi k malloced w.disp socfd w.io >>= λ r.
      done (0, record { disp = r.0; jobs = w.jobs ++ r.1; io = r.2 })

  -- `&RequestDispatcher::IotHandle` on one descriptor.
  unfoldable pub iot_callable : Object → SocketArg → World k → Run (ℕ × World k)
  iot_callable disp (array socfd) w = fault
  iot_callable disp (descriptor fd) w = iot_handle abi k w.disp fd w.io >>= λ r.
      done (0, record { disp = r.0; jobs = w.jobs; io = r.1 })

  -- The second loop of `main`.
  unfoldable pub register_devices :
      (ℕ → ℕ) → ℕ → ℕ → Reactor (World k) Object SocketArg → Reactor (World k) Object SocketArg
  unfolding iot_callable
  register_devices socfd zero i rea = rea
  register_devices socfd (suc rounds) i rea =
      register_devices socfd rounds (i + 1)
        (register_read_handler (socfd i) (bind_member iot_callable tt (descriptor (socfd i))) rea)

  -- The reactor that `main` runs, for the array `socfd`.
  unfoldable pub server_reactor : (ℕ → ℕ) → Reactor (World k) Object SocketArg
  unfolding nbd_callable register_devices
  server_reactor socfd =
      register_devices socfd 8 1
        (register_read_handler (socfd 0) (bind_member nbd_callable tt (array socfd)) new_reactor)
