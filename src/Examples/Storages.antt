-- ===== src/Examples/Storages.antt =====
-- The event loop of the storage server, on a write and a read.
use private_distributed_clou.Prelude.{ℕ, ◌≡◌, refl, some, List, [], ◌∷◌, ◌++◌, arith, slice}
use private_distributed_clou.Run.{done}
use private_distributed_clou.Memory.{write_at}
use private_distributed_clou.Nbd.{message_of, ntohll}
use private_distributed_clou.Nbd.Exchange.{SentRequest, message_sent, answer_to}
use private_distributed_clou.Select.{SelectCall}
use private_distributed_clou.Reactor.{Reactor, run_rounds}
use private_distributed_clou.Reactor.Single.{only}
use private_distributed_clou.Storage.{
  StorageWorld, Object, storage_reactor, serve, copy_to_storage, copy_from_storage,
}
use private_distributed_clou.Storage.Serving.{
  AllSent, bytes_of, serve_all, answered_before, storage_serves,
}
use private_distributed_clou.Kernels.{
  chunk_kernel, chunk_kernel-IsLive, chunk_kernel-IsDuplex, linux_abi,
}

-- The magic number, the type, a handle of 8 bytes, the offset and the length, in network order.
abbrev header_of : ℕ → ℕ → ℕ → ℕ → List ℕ
header_of type handle offset len =
    0x25 ∷ 0x60 ∷ 0x95 ∷ 0x13 ∷ 0 ∷ 0 ∷ 0 ∷ type ∷ handle ∷ 0 ∷ 0 ∷ 0 ∷ 0 ∷ 0 ∷ 0 ∷ 0 ∷ 0 ∷ 0 ∷ 0
    ∷ 0 ∷ 0 ∷ 0 ∷ 0 ∷ offset ∷ 0 ∷ 0 ∷ 0 ∷ len ∷ []

-- Two bytes are written at 1, and four are read at 0.
abbrev two_requests : List SentRequest
two_requests =
    record { header = header_of 1 8 1 2; payload = 71 ∷ 72 ∷ [] }
    ∷ record { header = header_of 0 9 0 4; payload = [] }
    ∷ []

abbrev zeros : ℕ → List ℕ
zeros n = 0 ∷ 0 ∷ 0 ∷ 0 ∷ []

two_requests-AllSent : AllSent linux_abi two_requests
unfolding AllSent slice
two_requests-AllSent = (
  record { size = refl; magic = refl; follows = refl },
  (record { size = refl; magic = refl; follows = refl }, tt),
)

abbrev both_answers : List ℕ
both_answers =
    8 ∷ 0 ∷ 0 ∷ 0 ∷ 0 ∷ 0 ∷ 0 ∷ 0 ∷ 9 ∷ 0 ∷ 0 ∷ 0 ∷ 0 ∷ 0 ∷ 0 ∷ 0 ∷ 10 ∷ 71 ∷ 72 ∷ 13 ∷ []

two_requests_served :
    serve_all linux_abi zeros 3 two_requests (10 ∷ 11 ∷ 12 ∷ 13 ∷ 14 ∷ [])
    ≡ some (10 ∷ 71 ∷ 72 ∷ 13 ∷ 14 ∷ [], both_answers)
unfolding serve_all answered_before serve copy_to_storage copy_from_storage message_sent answer_to
    message_of ntohll slice write_at
two_requests_served = refl

abbrev storage_world : StorageWorld (chunk_kernel 4)
storage_world = record {
  storage = 10 ∷ 11 ∷ 12 ∷ 13 ∷ 14 ∷ [];
  io = record {
    inbox = header_of 1 8 1 2 ++ (71 ∷ 72 ∷ (header_of 0 9 0 4 ++ (99 ∷ [])));
    outbox = [];
  };
}

abbrev three_ready : SelectCall (StorageWorld (chunk_kernel 4))
three_ready nfds s w = (some 1, only 3, w)

storage_serves_example :
    (r' : Reactor (StorageWorld (chunk_kernel 4)) Object ℕ) × (w' : StorageWorld (chunk_kernel 4))
    × (run_rounds 2 three_ready (storage_reactor linux_abi (chunk_kernel 4) zeros 3) storage_world
        ≡ done (r', w'))
    × (w'.storage ≡ 10 ∷ 71 ∷ 72 ∷ 13 ∷ 14 ∷ [])
    × (w'.io.inbox ≡ 99 ∷ [])
    × (w'.io.outbox ≡ both_answers)
unfolding bytes_of
storage_serves_example =
    storage_serves linux_abi (chunk_kernel 4) zeros 3 (chunk_kernel-IsLive 3 3)
      (chunk_kernel-IsDuplex 4 3 3) three_ready (λ w some_there. refl) (omega arith) two_requests
      storage_world (99 ∷ []) (10 ∷ 71 ∷ 72 ∷ 13 ∷ 14 ∷ []) both_answers two_requests-AllSent refl
      two_requests_served
