-- ===== src/Examples/Tables.antt =====
-- The table of active requests, the event loop and the factory.
use private_distributed_clou.Prelude.{
  ℕ, zero, suc, ◌≡◌, ◌⊎◌, ◌++◌, true, false, refl, some, List, [], ◌∷◌, arith, ℕ_discrete, slice,
}
use private_distributed_clou.Run.{Run, done, fault}
use private_distributed_clou.Assoc
use private_distributed_clou.IntSet
use private_distributed_clou.Net.{recv_all, write_all}
use private_distributed_clou.Nbd.{nbd_request_done, reply_bytes}
use private_distributed_clou.Host.{RequestHost}
use private_distributed_clou.Host.Reply.{
  is_answered, load32, load_header, peek, read_reply, take_reply,
}
use private_distributed_clou.Dispatcher.{RequestDispatcher, iot_handle}
use private_distributed_clou.Dispatcher.Returns.{reply_overruns, PeeksNumber, iot_handle_returns}
use private_distributed_clou.Function.{bind_free, invoke}
use private_distributed_clou.Reactor.{Reactor, new_reactor, register_read_handler, call_handler}
use private_distributed_clou.Reactor.Rounds.{call_each}
use private_distributed_clou.Kernels.{
  chunk_kernel-IsLive, chunk_kernel-IsDuplex, Wire, chunk_kernel, linux_abi,
}

-- A write of two fragments under the number 6, of which the fragment 1 waits for its reply.
abbrev waiting_host : RequestHost
waiting_host = record {
  message = record {
    nbd_req = record { req_type = 1; data_len = 2048; offset = 0; data_buf = [] };
    nbd_sock = 3;
    reply = record { magic = 0; error = 0; handle = 8 ∷ [] };
  };
  req_uid = 6;
  fragmentation_set = 1 ∷ [];
}

abbrev waiting : RequestDispatcher
waiting = record { active_requests = (6, waiting_host) ∷ []; next_uid = 7 }

-- The reply for the fragment 1 of the request 6.
abbrev reply_wire : Wire
reply_wire = record {
  inbox =
      6 ∷ 0 ∷ 0 ∷ 0 ∷ 1 ∷ 0 ∷ 0 ∷ 0 ∷ 0 ∷ 0 ∷ 0 ∷ 0 ∷ 0 ∷ 0 ∷ 0 ∷ 0 ∷ 1 ∷ 0 ∷ 0 ∷ 0 ∷ 0 ∷ 4 ∷ 0 ∷ 0
      ∷ [];
  outbox = [];
}

abbrev answered_wire : Wire
answered_wire = record { inbox = []; outbox = 8 ∷ [] }

abbrev emptied : RequestDispatcher
emptied = record { active_requests = []; next_uid = 7 }

-- The last reply removes the entry, and the block device gets its reply.
last_reply :
    iot_handle linux_abi (chunk_kernel 100) waiting 5 reply_wire ≡ done (emptied, answered_wire)
unfolding iot_handle peek recv_all read_reply take_reply nbd_request_done load_header load32 slice
    ℕ_discrete Assoc.find Assoc.erase Assoc.insert IntSet.erase IntSet.is_empty write_all
last_reply = refl

abbrev struck : RequestHost
struck = record waiting_host { fragmentation_set = [] }

struck_off :
    take_reply linux_abi waiting_host (load_header reply_wire.inbox).fragment_uid [] ≡ some struck
unfolding take_reply load_header load32 slice IntSet.erase
struck_off = refl

wire-PeeksNumber : PeeksNumber (chunk_kernel 100) 5
wire-PeeksNumber = record { peeks = λ w le. refl }

iot_handle_returns_example :
    (w' : Wire) × (w'.inbox ≡ [])
    × (((is_answered struck ≡ true)
          × (iot_handle linux_abi (chunk_kernel 100) waiting 5 reply_wire
              ≡ done (
                record waiting {
                  active_requests = Assoc.erase ℕ_discrete 6 waiting.active_requests;
                },
                w',
              ))
          × (w'.outbox ≡ reply_bytes linux_abi struck.message 0))
        ⊎ ((is_answered struck ≡ false)
            × (iot_handle linux_abi (chunk_kernel 100) waiting 5 reply_wire
                ≡ done (
                  record waiting {
                    active_requests = Assoc.insert ℕ_discrete 6 struck waiting.active_requests;
                  },
                  w',
                ))
            × (w'.outbox ≡ [])))
unfolding load32 Assoc.find ℕ_discrete
iot_handle_returns_example =
    iot_handle_returns linux_abi (chunk_kernel 100) waiting 5 reply_wire waiting_host struck
      reply_wire.inbox [] [] (λ sock. chunk_kernel-IsLive 99 sock)
      (λ a b. chunk_kernel-IsDuplex 100 a b) wire-PeeksNumber refl refl refl refl struck_off

-- A read of one fragment, and a reply for its fragment 2.
abbrev zeros : ℕ → List ℕ
zeros zero = []
zeros (suc n) = 0 ∷ zeros n

abbrev reading_host : RequestHost
reading_host = record {
  message = record {
    nbd_req = record { req_type = 0; data_len = 1024; offset = 0; data_buf = zeros 1024 };
    nbd_sock = 3;
    reply = record { magic = 0; error = 0; handle = 8 ∷ [] };
  };
  req_uid = 6;
  fragmentation_set = 0 ∷ [];
}

abbrev reading : RequestDispatcher
reading = record { active_requests = (6, reading_host) ∷ []; next_uid = 7 }

abbrev far_header : List ℕ
far_header =
    6 ∷ 0 ∷ 0 ∷ 0 ∷ 2 ∷ 0 ∷ 0 ∷ 0 ∷ 0 ∷ 0 ∷ 0 ∷ 0 ∷ 0 ∷ 0 ∷ 0 ∷ 0 ∷ 0 ∷ 0 ∷ 0 ∷ 0 ∷ 0 ∷ 4 ∷ 0 ∷ 0
    ∷ []

abbrev far_wire : Wire
far_wire = record { inbox = far_header ++ (zeros 1024 ++ []); outbox = [] }

reply_overruns_example : iot_handle linux_abi (chunk_kernel 100) reading 5 far_wire ≡ fault
unfolding load32 load_header slice Assoc.find ℕ_discrete
reply_overruns_example =
    reply_overruns linux_abi (chunk_kernel 100) reading 5 far_wire reading_host far_header
      (zeros 1024) [] (chunk_kernel-IsLive 99 5) wire-PeeksNumber refl refl refl refl refl refl
      (omega arith) (omega arith)

-- Handlers that note the descriptor that they are bound to.
abbrev note : ℕ → List ℕ → Run (ℕ × List ℕ)
note fd seen = done (0, fd ∷ seen)

abbrev two_handlers : Reactor (List ℕ) ℕ ℕ
two_handlers =
    register_read_handler 5 (bind_free note 5)
      (register_read_handler 2 (bind_free note 2) new_reactor)

both_called : call_each two_handlers.handlers (2 ∷ 5 ∷ []) [] ≡ done (5 ∷ 2 ∷ [])
unfolding call_each call_handler register_read_handler new_reactor bind_free invoke Assoc.find
    Assoc.insert ℕ_discrete
both_called = refl
