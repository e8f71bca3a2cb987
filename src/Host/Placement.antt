-- ===== src/Host/Placement.antt =====
-- Which messages the jobs of one request send: RequestHost::Distribute and SendMsgWrapper.
use private_distributed_clou.Prelude.{
  ℕ, zero, suc, ◌+◌, ◌-◌, ◌*◌, ◌/◌, ◌%◌, ◌^◌, ◌≤◌, ◌<◌, ◌≡◌, ◌⊎◌, inl, inr, refl, some, List, [],
  ◌∷◌, map, slice, ◌==◌, if◌then◌else◌, u32, arith, ℕ_discrete,
}
use private_distributed_clou.Run.{done}
use private_distributed_clou.Factory
use private_distributed_clou.Nbd.{NbdAbi, NbdRequest}
use private_distributed_clou.Command.{
  AtlasHeader, SendMsgInfo, Sent, header_bytes, data_bytes, Command, read_request, write_request,
  SendFails, gather, send_request,
}
use private_distributed_clou.Host.{
  RequestHost, frag_size, num_of_iot, fragment_count, job_info, with_header, advance, send_loop,
  send_msg_wrapper,
}
use private_distributed_clou.Dispatcher.{command_factory, create-command_factory}

-- The number on the device of the first fragment.
abbrev pub first_fragment : RequestHost → ℕ
first_fragment host = host.nbq_req.offset / frag_size

-- The header that fragment `k` is due: the address on its IoT device is 128 for each fragment before it on the
-- device. The code's header has the remainder of this by 2 ^ 32.
abbrev pub fragment_header : RequestHost → ℕ → AtlasHeader
fragment_header host k = record {
  request_uid = host.req_uid;
  fragment_uid = k;
  alarm_uid = 0;
  iot_offset = (first_fragment host + k) * 128;
  type = host.nbq_req.req_type;
  len = frag_size;
}

-- The bytes of fragment `k`.
abbrev pub fragment_data : RequestHost → ℕ → List ℕ
fragment_data host k = slice (k * frag_size) frag_size host.nbq_req.data_buf

-- The one message that fragment `k` of a request is due: on the socket of its device, its header, and
-- for a write its bytes.
abbrev pub fragment_message : NbdAbi → RequestHost → (ℕ → ℕ) → ℕ → Sent
fragment_message abi host socket k = record {
  sockfd = socket ((first_fragment host + k) % num_of_iot + 1);
  pieces =
      header_bytes (fragment_header host k)
      ∷ (if host.nbq_req.req_type == abi.cmd_write
          then data_bytes (fragment_data host k) ∷ []
          else []);
}

-- The request is a read or a write, within the addresses that 32 bits hold.
pub record IsServed (abi : NbdAbi) (r : NbdRequest) : Type 0 where
  pub known : (r.req_type ≡ abi.cmd_read) ⊎ (r.req_type ≡ abi.cmd_write)
  pub small : r.offset + r.data_len ≤ 2 ^ 32

module _ (host : RequestHost) (socket : ℕ → ℕ) where
  -- The job's information stands at fragment `k`.
  pub record At (k : ℕ) (s : SendMsgInfo) : Type 0 where
    pub on_socket : s.sockfd ≡ socket ((first_fragment host + k) % num_of_iot + 1)
    pub headed : s.atlas_header ≡ fragment_header host k
    pub requested : s.req ≡ host.nbq_req
    pub starts : s.start_data_buff ≡ k * frag_size

-- The numbers `i`, `i + 8`, …, of which there are `rounds`.
unfoldable pub stride : ℕ → ℕ → List ℕ
stride zero i = []
stride (suc rounds) i = i ∷ stride rounds (i + 8)

module _ (abi : NbdAbi) (fails : SendFails) (host : RequestHost) (socket : ℕ → ℕ) where
  -- A round of the loop sends the message of its fragment, and goes on to the fragment eight further.
  read_step :
      (k : ℕ) (s : SendMsgInfo)
      → k < fragment_count host.nbq_req
      → host.nbq_req.offset + host.nbq_req.data_len ≤ 2 ^ 32
      → host.nbq_req.req_type ≡ abi.cmd_read
      → At host socket k s
      → let r = send_request fails (read_request (with_header s)) in
        (r.sent ≡ fragment_message abi host socket k) × At host socket (k + 8) (advance r.info)
  unfolding send_request gather with_header advance
  read_step k s lt small e at = ground (arith, abi.distinct)

  write_step :
      (k : ℕ) (s : SendMsgInfo)
      → k < fragment_count host.nbq_req
      → host.nbq_req.offset + host.nbq_req.data_len ≤ 2 ^ 32
      → host.nbq_req.req_type ≡ abi.cmd_write
      → At host socket k s
      → let r = send_request fails (write_request (with_header s)) in
        (r.sent ≡ fragment_message abi host socket k) × At host socket (k + 8) (advance r.info)
  unfolding send_request gather with_header advance
  write_step k s lt small e at = ground (arith, abi.distinct)

  create_as_read :
      {k : ℕ} (s : SendMsgInfo)
      → host.nbq_req.req_type ≡ abi.cmd_read
      → At host socket k s
      → Factory.create ℕ_discrete s.atlas_header.type (with_header s) (command_factory abi)
        ≡ some (read_request (with_header s))
  create_as_read s e at =
      ground (arith, create-command_factory abi s.atlas_header.type (with_header s))

  create_as_write :
      {k : ℕ} (s : SendMsgInfo)
      → host.nbq_req.req_type ≡ abi.cmd_write
      → At host socket k s
      → Factory.create ℕ_discrete s.atlas_header.type (with_header s) (command_factory abi)
        ≡ some (write_request (with_header s))
  create_as_write s e at =
      ground (arith, abi.distinct, create-command_factory abi s.atlas_header.type (with_header s))

  -- One round, for the command that the factory makes.
  send_round :
      (command : Command) (rounds fuel k : ℕ) (s : SendMsgInfo)
      → suc rounds ≡ (fragment_count host.nbq_req + 7 - k) / 8
      → IsServed abi host.nbq_req
      → Factory.create ℕ_discrete s.atlas_header.type (with_header s) (command_factory abi)
        ≡ some command
      → (send_request fails command).sent ≡ fragment_message abi host socket k
      → send_loop
          (command_factory abi)
          fails
          host
          fuel
          (k + 8)
          (advance (send_request fails command).info)
        ≡ done (map (fragment_message abi host socket) (stride rounds (k + 8)))
      → send_loop (command_factory abi) fails host (suc fuel) k s
        ≡ done (map (fragment_message abi host socket) (stride (suc rounds) k))
  unfolding send_loop stride
  send_round command rounds fuel k s e served made sent later =
      let next : u32 (k + num_of_iot) ≡ k + 8 = omega arith in ground arith

  send_loop_lem :
      (rounds fuel k : ℕ) (s : SendMsgInfo)
      → rounds ≡ (fragment_count host.nbq_req + 7 - k) / 8
      → rounds < fuel
      → IsServed abi host.nbq_req
      → At host socket k s
      → send_loop (command_factory abi) fails host fuel k s
        ≡ done (map (fragment_message abi host socket) (stride rounds k))
  unfolding send_loop stride
  send_loop_lem rounds zero k s e lt served at = absurd (omega arith)
  send_loop_lem zero (suc fuel) k s e lt served at = ground arith
  send_loop_lem (suc rounds) (suc fuel) k s e lt served at = elim served.known [
    | inl reads ↦
        let step = read_step k s (omega arith) served.small reads at in
        send_round (read_request (with_header s)) rounds fuel k s e served
          (create_as_read s reads at) step.0
          (send_loop_lem rounds fuel (k + 8) _ (omega arith) (omega arith) served step.1)
    | inr writes ↦
        let step = write_step k s (omega arith) served.small writes at in
        send_round (write_request (with_header s)) rounds fuel k s e served
          (create_as_write s writes at) step.0
          (send_loop_lem rounds fuel (k + 8) _ (omega arith) (omega arith) served step.1)
  ]

  job-At :
      (j : ℕ)
      → j < fragment_count host.nbq_req
      → IsServed abi host.nbq_req
      → At host socket j (job_info host socket j (first_fragment host + j))
  unfolding job_info
  job-At j lt served = ground arith

  -- The job of round `j` of `Distribute` sends the messages of the fragments `j`, `j + 8`, … of the
  -- request, in this order, and returns 0.
  pub send_msg_wrapper_lem :
      (j : ℕ)
      → j < fragment_count host.nbq_req
      → IsServed abi host.nbq_req
      → send_msg_wrapper
          (command_factory abi)
          fails
          host
          (job_info host socket j (first_fragment host + j))
        ≡ done (
          map
              (fragment_message abi host socket)
              (stride ((fragment_count host.nbq_req + 7 - j) / 8) j),
          0,
        )
  unfolding send_msg_wrapper job_info
  send_msg_wrapper_lem j lt served =
      let sent =
        send_loop_lem ((fragment_count host.nbq_req + 7 - j) / 8)
          (suc (fragment_count host.nbq_req)) j (job_info host socket j (first_fragment host + j))
          refl (omega arith) served (job-At j lt served) in
      rw sent
