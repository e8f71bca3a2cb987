-- ===== src/Examples/Servers.antt =====
-- The server of the eight devices with its sockets.
use private_distributed_clou.Prelude.{
  ℕ, ◌+◌, ◌≤◌, ◌<◌, ◌^◌, ◌≡◌, slice, ℕ_discrete, ◌⊎◌, refl, true, false, some, none, Option, List,
  [], ◌∷◌, length, ◌==◌,
}
use private_distributed_clou.Run.{done}
use private_distributed_clou.Assoc
use private_distributed_clou.Net.{read_all, receive_loop}
use private_distributed_clou.Nbd.{NbdMessage, message_of, read_data, nbd_request_read}
use private_distributed_clou.Function.{bind_member, invoke, run_bound}
use private_distributed_clou.Dispatcher.{new_dispatcher, admit, nbd_requests_handle}
use private_distributed_clou.Dispatcher.Serving
use private_distributed_clou.Dispatcher.Serving.{Serving, IsHistory}
use private_distributed_clou.Server.History.{jobs_from, server_reactor-IsHistory}
use private_distributed_clou.Select.{
  fd_clr, fd_set, wait_for_event, get_next_read_fd, scan, FdSet, SelectCall, set_read, new_select,
}
use private_distributed_clou.Reactor.{
  run_rounds, dispatch_loop, call_handler, run_round, register_read_handler, new_reactor,
}
use private_distributed_clou.Reactor.Rounds.{state_of, ready, serve_each}
use private_distributed_clou.Server.{
  nbd_callable, iot_callable, register_devices, SocketCalls, World, connect_devices, server_reactor,
}
use private_distributed_clou.Server.Handlers.{among, serve_fd, server_round, server_watches}
use private_distributed_clou.Kernels.{Wire, chunk_kernel, linux_abi}

-- Sockets are numbered from 3 on, and `connect` takes any of them.
abbrev counter_calls : SocketCalls ℕ
counter_calls = record {
  socket = λ io. (some io, io + 1);
  connect = λ fd p io. (elim fd [ none ↦ false | some _ ↦ true ], io);
}

abbrev two_sockets : List (Option ℕ)
two_sockets = some 3 ∷ some 4 ∷ []

two_connected : (connect_devices counter_calls 2 1 0 3).0 ≡ some two_sockets
unfolding connect_devices
two_connected = refl

abbrev places : ℕ → ℕ
places i = i + 3

abbrev nothing : ℕ → List ℕ
nothing n = []

server_watches_example :
    ((server_reactor linux_abi (chunk_kernel 4) nothing places).monit.master 7 ≡ among places 7 9 0)
    × ((among places 7 9 0 ≡ false)
        ⊎ (7 ≤ (server_reactor linux_abi (chunk_kernel 4) nothing places).monit.fd_max))
server_watches_example = server_watches linux_abi (chunk_kernel 4) nothing places 7

abbrev idle_world : World (chunk_kernel 4)
idle_world = record {
  disp = record { active_requests = []; next_uid = 0 };
  jobs = [];
  io = record { inbox = []; outbox = [] };
}

abbrev only_five : FdSet
only_five fd = fd == 5

abbrev five_ready : SelectCall (World (chunk_kernel 4))
five_ready nfds s w = (some 1, only_five, w)

server_round_example :
    state_of
      (run_round five_ready (server_reactor linux_abi (chunk_kernel 4) nothing places) idle_world)
    ≡ serve_each (serve_fd linux_abi (chunk_kernel 4) nothing places) (5 ∷ []) idle_world
unfolding ready server_reactor register_read_handler new_reactor set_read new_select
server_round_example =
    server_round linux_abi (chunk_kernel 4) nothing places five_ready idle_world idle_world
      only_five refl

-- A read of 1024 bytes at 0 arrives, and one turn of the event loop takes it.
abbrev read_header : List ℕ
read_header =
    0x25 ∷ 0x60 ∷ 0x95 ∷ 0x13 ∷ 0 ∷ 0 ∷ 0 ∷ 0 ∷ 8 ∷ 2 ∷ 3 ∷ 4 ∷ 5 ∷ 6 ∷ 7 ∷ 8 ∷ 0 ∷ 0 ∷ 0 ∷ 0 ∷ 0
    ∷ 0 ∷ 0 ∷ 0 ∷ 0 ∷ 0 ∷ 4 ∷ 0 ∷ []

abbrev arrived : Wire
arrived = record { inbox = read_header; outbox = [] }

abbrev block_ready : SelectCall (World (chunk_kernel 40))
block_ready nfds s w = (some 1, λ fd. fd == 3, w)

abbrev read_message : NbdMessage
read_message = message_of linux_abi 3 (linux_abi.decode_request read_header) []

abbrev after_turn : World (chunk_kernel 40)
after_turn = record {
  disp = (admit new_dispatcher places read_message).0;
  jobs = (admit new_dispatcher places read_message).1;
  io = record { inbox = []; outbox = [] };
}

one_turn :
    run_rounds 1 block_ready
      (server_reactor linux_abi (chunk_kernel 40) nothing places)
      (record { disp = new_dispatcher; jobs = []; io = arrived })
    ≡ done (
      record (server_reactor linux_abi (chunk_kernel 40) nothing places) {
        monit = record ((server_reactor linux_abi (chunk_kernel 40) nothing places).monit) {
          read_set = fd_clr 3 (λ fd. fd == 3);
        };
      },
      after_turn,
    )
unfolding run_rounds run_round wait_for_event dispatch_loop get_next_read_fd scan server_reactor
    register_devices call_handler register_read_handler new_reactor new_select set_read fd_set
    invoke run_bound bind_member nbd_callable iot_callable nbd_requests_handle nbd_request_read
    read_data read_all receive_loop admit Assoc.find Assoc.insert ℕ_discrete slice
one_turn = refl

server_reactor-IsHistory_example :
    (s : Serving (chunk_kernel 40)) × Serving.Reach linux_abi (chunk_kernel 40) nothing arrived s
    × (s.dispatcher ≡ after_turn.disp)
    × (length s.asked < 2 ^ 32 → (after_turn.jobs ≡ jobs_from places 0 s.asked) × IsHistory s)
server_reactor-IsHistory_example =
    server_reactor-IsHistory linux_abi (chunk_kernel 40) nothing places arrived 1 block_ready
      (λ nfds s v. (refl, refl)) one_turn
