-- ===== src/Server/Handlers.antt =====
-- Which handler of the dispatcher a ready descriptor reaches.
use private_distributed_clou.Prelude.{
  ℕ, zero, suc, ◌+◌, ◌≤◌, ◌≡◌, refl, ap, ◌∙◌, Bool, true, false, ◌||◌, ◌⊎◌, inl, inr, Option, none,
  some, List, [], ◌++◌, length, arith, ◌==◌, ltb, if◌then◌else◌, ℕ_discrete,
}
use private_distributed_clou.Run.{Run, done, fault, ◌>>=◌, >>=-done-done}
use private_distributed_clou.Assoc
use private_distributed_clou.Net.{Kernel}
use private_distributed_clou.Nbd.{NbdAbi}
use private_distributed_clou.Dispatcher.{nbd_requests_handle, iot_handle}
use private_distributed_clou.Function.{Function, bind_member, invoke, run_bound}
use private_distributed_clou.Select.{FdSet, SelectCall, set_read, fd_set, new_select}
use private_distributed_clou.Reactor.{
  Reactor, new_reactor, register_read_handler, call_handler, run_round,
}
use private_distributed_clou.Reactor.Rounds.{ready, serve_each, state_of, run_round-serve_each}
use private_distributed_clou.Server.{
  SocketArg, array, descriptor, World, Object, nbd_callable, iot_callable, register_devices,
  server_reactor,
}

-- What the registration of the block device adds to that of the devices.
with_block :
    (device : Bool) (block fd max : ℕ) (master : Bool)
    → master ≡ (device || (if fd == block then true else false))
    → (device ≡ false) ⊎ (fd ≤ max)
    → (if ltb 0 block then block else 0) ≤ max
    → (master ≡ (block == fd || device)) × (((block == fd || device) ≡ false) ⊎ (fd ≤ max))
with_block true block fd max master e (inl never) le = absurd (cc never)
with_block true block fd max master e (inr below) le = (ground arith, inr below)
with_block false block fd max master e known le = elim (ℕ_discrete block fd) [
  | yes same ↦ (ground (arith, same), inr (ground (arith, same, le)))
  | no other ↦ (ground (arith, other), inl (ground (arith, other)))
]

-- The descriptor stands at one of the places `i`, `i + 1`, …, of which there are `rounds`.
unfoldable pub among : (ℕ → ℕ) → ℕ → ℕ → ℕ → Bool
among socfd fd zero i = false
among socfd fd (suc rounds) i = socfd i == fd || among socfd fd rounds (i + 1)

module _ (abi : NbdAbi) (k : Kernel) (malloced : ℕ → List ℕ) (socfd : ℕ → ℕ) where
  find-register_devices :
      (rounds i fd : ℕ) (rea : Reactor (World k) Object SocketArg)
      → Assoc.find ℕ_discrete fd (register_devices abi k malloced socfd rounds i rea).handlers ≡ (
          if among socfd fd rounds i
          then some (bind_member (iot_callable abi k malloced) tt (descriptor fd))
          else Assoc.find ℕ_discrete fd rea.handlers)
  unfolding register_devices register_read_handler among
  find-register_devices zero i fd rea = refl
  find-register_devices (suc rounds) i fd rea =
      find-register_devices rounds (i + 1) fd (
        register_read_handler (socfd i)
          (bind_member (iot_callable abi k malloced) tt (descriptor (socfd i))) rea)
      ∙ ground (
        arith,
        Assoc.find-insert ℕ_discrete (socfd i) fd
            (bind_member (iot_callable abi k malloced) tt (descriptor (socfd i))) rea.handlers,
      )

  find-server_reactor :
      (fd : ℕ)
      → Assoc.find ℕ_discrete fd (server_reactor abi k malloced socfd).handlers ≡ (
          if among socfd fd 8 1
          then some (bind_member (iot_callable abi k malloced) tt (descriptor fd))
          else if socfd 0 == fd
          then some (bind_member (nbd_callable abi k malloced) tt (array socfd))
          else none)
  unfolding server_reactor register_read_handler new_reactor Assoc.find
  find-server_reactor fd =
      find-register_devices 8 1 fd (
        register_read_handler (socfd 0) (bind_member (nbd_callable abi k malloced) tt (array socfd))
          new_reactor)
      ∙ ground (
        arith,
        Assoc.find-insert ℕ_discrete (socfd 0) fd
            (bind_member (nbd_callable abi k malloced) tt (array socfd)) [],
      )

  -- What the program does for one ready descriptor.
  unfoldable pub serve_fd : ℕ → World k → Run (World k)
  serve_fd fd w =
      if among socfd fd 8 1
      then (iot_handle abi k w.disp fd w.io >>= λ r.
          done (record { disp = r.0; jobs = w.jobs; io = r.1 }))
      else if socfd 0 == fd
      then (nbd_requests_handle abi k malloced w.disp socfd w.io >>= λ r.
          done (record { disp = r.0; jobs = w.jobs ++ r.1; io = r.2 }))
      else fault

  pub call_server_handler :
      (fd : ℕ) (w : World k)
      → call_handler (server_reactor abi k malloced socfd).handlers fd w ≡ serve_fd fd w
  unfolding call_handler serve_fd invoke run_bound bind_member nbd_callable iot_callable
  call_server_handler fd w =
      ap entry_of (find-server_reactor fd) ∙ by_place (among socfd fd 8 1) (socfd 0 == fd)
    where
      entry_of : Option (Function (World k) Object SocketArg ℕ) → Run (World k)
      entry_of o = elim o [ none ↦ fault | some func ↦ invoke func w >>= λ r. done r.1 ]

      by_place :
          (device block : Bool)
          → entry_of (
              if device
              then some (bind_member (iot_callable abi k malloced) tt (descriptor fd))
              else if block
              then some (bind_member (nbd_callable abi k malloced) tt (array socfd))
              else none)
            ≡ (if device
                then (iot_handle abi k w.disp fd w.io >>= λ r.
                    done (record { disp = r.0; jobs = w.jobs; io = r.1 }))
                else if block
                then (nbd_requests_handle abi k malloced w.disp socfd w.io >>= λ r.
                    done (record { disp = r.0; jobs = w.jobs ++ r.1; io = r.2 }))
                else fault)
      by_place true block = >>=-done-done (iot_handle abi k w.disp fd w.io) _ _
      by_place false true = >>=-done-done (nbd_requests_handle abi k malloced w.disp socfd w.io) _ _
      by_place false false = refl

  -- One round of the event loop of the server, when `select` returns the number of descriptors in the set that it
  -- leaves: in ascending order, a ready descriptor that is a device's runs `IotHandle` on it, the block
  -- device's runs `NbdRequestsHandle`, and each works on what the one before has left.
  pub server_round :
      (select : SelectCall (World k)) (w w' : World k) (left : FdSet)
      → let monit = (server_reactor abi k malloced socfd).monit in
        (select (monit.fd_max + 1) monit.master w
          ≡ (some (length (ready (monit.fd_max + 1) 0 left)), left, w'))
        → state_of (run_round select (server_reactor abi k malloced socfd) w)
          ≡ serve_each serve_fd
              (ready ((server_reactor abi k malloced socfd).monit.fd_max + 1) 0 left)
              w'
  server_round select w w' left e =
      run_round-serve_each select (server_reactor abi k malloced socfd) serve_fd w w' left
        call_server_handler e

  monit-register_devices :
      (rounds i fd : ℕ) (rea : Reactor (World k) Object SocketArg)
      → let after = (register_devices abi k malloced socfd rounds i rea).monit in
        (after.master fd ≡ (among socfd fd rounds i || rea.monit.master fd))
        × ((among socfd fd rounds i ≡ false) ⊎ (fd ≤ after.fd_max))
        × (rea.monit.fd_max ≤ after.fd_max)
  unfolding register_devices register_read_handler among set_read fd_set
  monit-register_devices zero i fd rea = (refl, inl refl, omega arith)
  monit-register_devices (suc rounds) i fd rea =
      let next =
        register_read_handler (socfd i)
          (bind_member (iot_callable abi k malloced) tt (descriptor (socfd i))) rea in
      let rest = monit-register_devices rounds (i + 1) fd next in
      (
        ground (arith, rest.0),
        elim (ℕ_discrete (socfd i) fd) [
          | yes same ↦ inr (ground (arith, same, rest.2))
          | no other ↦ ground (arith, other, rest.1)
        ],
        ground (arith, rest.2),
      )

  among_first : (fd : ℕ) → among socfd fd 9 0 ≡ (socfd 0 == fd || among socfd fd 8 1)
  unfolding among
  among_first fd = refl

  -- The monitor of the server watches the block device and the eight devices and nothing else, and none of them
  -- lies above the highest descriptor that it tests.
  pub server_watches :
      (fd : ℕ)
      → ((server_reactor abi k malloced socfd).monit.master fd ≡ among socfd fd 9 0)
        × ((among socfd fd 9 0 ≡ false) ⊎ (fd ≤ (server_reactor abi k malloced socfd).monit.fd_max))
  unfolding server_reactor register_read_handler new_reactor new_select set_read fd_set
  server_watches fd =
      let all = monit-register_devices 8 1 fd (
        register_read_handler (socfd 0) (bind_member (nbd_callable abi k malloced) tt (array socfd))
          new_reactor) in
      rw (among_first fd) (with_block (among socfd fd 8 1) (socfd 0) fd _ _ all.0 all.1 all.2)
