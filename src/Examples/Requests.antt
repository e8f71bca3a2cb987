-- ===== src/Examples/Requests.antt =====
-- A read and a write of two fragments, whose replies come in the other order.
use private_distributed_clou.Prelude.{
  ℕ, ◌+◌, ◌%◌, map, ◌<◌, ◌≡◌, ◌≢◌, refl, true, none, List, [], ◌∷◌, ◌++◌, length, arith, slice,
  ℕ_discrete,
}
use private_distributed_clou.Run.{done}
use private_distributed_clou.Assoc
use private_distributed_clou.Memory.{get_elem?}
use private_distributed_clou.Host.{create_host}
use private_distributed_clou.Host.Reply.{load32, load_header}
use private_distributed_clou.Host.Completion.{answers}
use private_distributed_clou.Dispatcher.{RequestDispatcher, iot_handle}
use private_distributed_clou.Dispatcher.Answers.{
  Arrival, IsReplyTo, AllReplyTo, replies_of, reply_of, handle_arrivals,
}
use private_distributed_clou.Host.Placement.{first_fragment, fragment_header, fragment_message}
use private_distributed_clou.Nbd.{NbdMessage}
use private_distributed_clou.Dispatcher.Writes.{write_served}
use private_distributed_clou.Cloud.{disk, deliver}
use private_distributed_clou.Cloud.Reads.{answer_of}
use private_distributed_clou.Cloud.Answers.{read_served}
use private_distributed_clou.Kernels.{
  Wire, chunk_kernel, chunk_kernel-IsLive, chunk_kernel-IsDuplex, linux_abi,
}
use private_distributed_clou.Examples.Clouds.{
  in_memory, wires, reader, reader-IsAligned, length-tabulate, seen, zeros,
}

-- The reply header for a fragment of the request 9.
abbrev header_for : ℕ → List ℕ
header_for fragment =
    9 ∷ 0 ∷ 0 ∷ 0 ∷ fragment ∷ 0 ∷ 0 ∷ 0 ∷ 0 ∷ 0 ∷ 0 ∷ 0 ∷ 0 ∷ 0 ∷ 0 ∷ 0 ∷ 0 ∷ 0 ∷ 0 ∷ 0 ∷ 0 ∷ 4 ∷ 0
    ∷ 0 ∷ []

abbrev body_for : ℕ → List ℕ
body_for fragment = answer_of in_memory (create_host 9 reader).0 wires seen zeros fragment

-- The bytes of the device of a fragment, when it answers.
abbrev bytes_at : ℕ → ℕ → ℕ
bytes_at fragment i =
    deliver in_memory
      (map (fragment_message linux_abi (create_host 9 reader).0 wires) (seen fragment)) zeros
      (wires ((first_fragment (create_host 9 reader).0 + fragment) % 8 + 1))
      ((fragment_header (create_host 9 reader).0 fragment).iot_offset + i)

abbrev arrival_of : ℕ → ℕ → Arrival (chunk_kernel 100)
arrival_of fd fragment = record {
  fd = fd;
  at = record { inbox = header_for fragment ++ (body_for fragment ++ []); outbox = 7 ∷ [] };
  header = header_for fragment;
  body = body_for fragment;
  rest = [];
}

abbrev reading : RequestDispatcher
reading = record { active_requests = (9, (create_host 9 reader).0) ∷ []; next_uid = 10 }

arrival_one : IsReplyTo linux_abi (chunk_kernel 100) 9 0 (arrival_of 106 1)
unfolding load32
arrival_one = record {
  stream = refl;
  size = refl;
  number = refl;
  follows = length-tabulate 1024 (bytes_at 1);
}

arrival_zero : IsReplyTo linux_abi (chunk_kernel 100) 9 0 (arrival_of 105 0)
unfolding load32
arrival_zero = record {
  stream = refl;
  size = refl;
  number = refl;
  follows = length-tabulate 1024 (bytes_at 0);
}

abbrev both_replies : List (ℕ × List ℕ)
both_replies = replies_of (arrival_of 106 1 ∷ []) ++ (reply_of (arrival_of 105 0) ∷ [])

both_complete : (i : ℕ) → i < 2 → answers both_replies i ≡ true
unfolding answers replies_of load_header load32 slice
both_complete i lt = ground arith

read_served_example :
    (d1 d2 : RequestDispatcher) × (w' : Wire) × (bytes : List ℕ) × (handle_arrivals linux_abi
        (chunk_kernel 100)
        (arrival_of 106 1 ∷ [])
        reading
      ≡ done d1)
    × (iot_handle linux_abi (chunk_kernel 100) d1 105 (arrival_of 105 0).at ≡ done (d2, w'))
    × (Assoc.find ℕ_discrete 9 d2.active_requests ≡ none)
    × ((j : ℕ)
        → 9 ≢ j
        → Assoc.find ℕ_discrete j d2.active_requests
          ≡ Assoc.find ℕ_discrete j reading.active_requests)
    × (w'.outbox ≡ 7 ∷ 8 ∷ bytes)
    × (length bytes ≡ 2048)
    × ((i : ℕ) → i < 2048 → get_elem? bytes i ≡ disk in_memory wires zeros (4096 + i))
unfolding create_host Assoc.find ℕ_discrete AllReplyTo replies_of answers load_header load32 slice
read_served_example =
    read_served (chunk_kernel 100) (λ sock. chunk_kernel-IsLive 99 sock)
      (λ a b. chunk_kernel-IsDuplex 100 a b) (λ fd. record { peeks = λ w le. refl }) in_memory
      reading 9 reader wires zeros seen (arrival_of 106 1 ∷ []) (arrival_of 105 0) reader-IsAligned
      refl (omega arith) (length-tabulate 2048 (λ i. 0)) refl (arrival_one, tt) arrival_zero
      (omega arith, refl, (omega arith, refl, tt)) both_complete refl

-- A write of two fragments, whose replies have no data.
abbrev write_message : NbdMessage
write_message = record {
  nbd_req = record { req_type = 1; data_len = 2048; offset = 4096; data_buf = [] };
  nbd_sock = 3;
  reply = record { magic = 0; error = 0; handle = 6 ∷ [] };
}

abbrev acknowledged : ℕ → ℕ → Arrival (chunk_kernel 100)
acknowledged fd fragment = record {
  fd = fd;
  at = record { inbox = header_for fragment ++ (98 ∷ []); outbox = 7 ∷ [] };
  header = header_for fragment;
  body = [];
  rest = 98 ∷ [];
}

abbrev writing : RequestDispatcher
writing = record { active_requests = (9, (create_host 9 write_message).0) ∷ []; next_uid = 10 }

acknowledged_reply :
    (fd fragment : ℕ) → IsReplyTo linux_abi (chunk_kernel 100) 9 1 (acknowledged fd fragment)
unfolding load32
acknowledged_reply fd fragment = record {
  stream = refl;
  size = refl;
  number = refl;
  follows = refl;
}

both_acknowledged :
    (i : ℕ)
    → i < 2
    → answers (replies_of (acknowledged 106 1 ∷ []) ++ (reply_of (acknowledged 105 0) ∷ [])) i
      ≡ true
unfolding answers replies_of load_header load32 slice
both_acknowledged i lt = ground arith

write_served_example :
    (d1 d2 : RequestDispatcher) × (w' : Wire) × (handle_arrivals linux_abi
        (chunk_kernel 100)
        (acknowledged 106 1 ∷ [])
        writing
      ≡ done d1)
    × (iot_handle linux_abi (chunk_kernel 100) d1 105 (acknowledged 105 0).at ≡ done (d2, w'))
    × (Assoc.find ℕ_discrete 9 d2.active_requests ≡ none)
    × ((j : ℕ)
        → 9 ≢ j
        → Assoc.find ℕ_discrete j d2.active_requests
          ≡ Assoc.find ℕ_discrete j writing.active_requests)
    × (w'.outbox ≡ 7 ∷ 6 ∷ [])
unfolding create_host Assoc.find ℕ_discrete AllReplyTo replies_of answers load_header load32 slice
write_served_example =
    write_served linux_abi (chunk_kernel 100) (λ sock. chunk_kernel-IsLive 99 sock)
      (λ a b. chunk_kernel-IsDuplex 100 a b) (λ fd. record { peeks = λ w le. refl }) writing 9
      write_message (acknowledged 106 1 ∷ []) (acknowledged 105 0) (λ e. omega (arith, e)) refl
      (acknowledged_reply 106 1, tt) (acknowledged_reply 105 0) (omega arith) both_acknowledged refl
