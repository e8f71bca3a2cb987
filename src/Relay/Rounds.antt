-- ===== src/Relay/Rounds.antt =====
-- Which handler of a relay a ready descriptor reaches.
use private_distributed_clou.Prelude.{
  ℕ, ◌+◌, ◌≡◌, refl, ap, ◌∙◌, Bool, true, false, Option, none, some, List, [], ◌∷◌, ◌++◌, length,
  arith, ◌==◌, if◌then◌else◌, ℕ_discrete,
}
use private_distributed_clou.Run.{Run, done, fault, ◌>>=◌, >>=-done-done}
use private_distributed_clou.Assoc
use private_distributed_clou.Net.{Kernel}
use private_distributed_clou.Nbd.{NbdAbi}
use private_distributed_clou.Function.{Function, bind_free, invoke, run_bound}
use private_distributed_clou.Select.{FdSet, SelectCall}
use private_distributed_clou.Reactor.{new_reactor, register_read_handler, call_handler, run_round}
use private_distributed_clou.Reactor.Rounds.{ready, serve_each, state_of, run_round-serve_each}
use private_distributed_clou.Relay.{
  Pending, RelayWorld, Object, relay_nbd_handle, relay_iot_handle, relay_nbd_callable,
  relay_iot_callable, relay_reactor,
}

module _ (abi : NbdAbi) (k : Kernel) (malloced : ℕ → List ℕ) (new_address : Pending → ℕ)
    (socfd : ℕ → ℕ) where
  -- What the program does for one ready descriptor.
  unfoldable pub relay_fd : ℕ → RelayWorld k → Run (RelayWorld k)
  relay_fd fd w =
      if socfd 1 == fd
      then (relay_iot_handle abi k socfd w.pending w.io >>= λ r.
          done (record { pending = r.0; messages = w.messages; io = r.1 }))
      else if socfd 0 == fd
      then (relay_nbd_handle abi k malloced (new_address w.pending) socfd w.pending w.io >>= λ r.
          done (record { pending = r.0; messages = w.messages ++ (r.1 ∷ []); io = r.2 }))
      else fault

  find-relay_reactor :
      (fd : ℕ)
      → Assoc.find ℕ_discrete fd (relay_reactor abi k malloced new_address socfd).handlers ≡ (
          if socfd 1 == fd
          then some (bind_free (relay_iot_callable abi k malloced new_address) socfd)
          else if socfd 0 == fd
          then some (bind_free (relay_nbd_callable abi k malloced new_address) socfd)
          else none)
  unfolding relay_reactor register_read_handler new_reactor Assoc.find
  find-relay_reactor fd =
      let nbd : Function (RelayWorld k) Object (ℕ → ℕ) ℕ =
        bind_free (relay_nbd_callable abi k malloced new_address) socfd in
      let iot : Function (RelayWorld k) Object (ℕ → ℕ) ℕ =
        bind_free (relay_iot_callable abi k malloced new_address) socfd in
      ground (
        arith,
        Assoc.find-insert ℕ_discrete (socfd 1) fd iot (Assoc.insert ℕ_discrete (socfd 0) nbd []),
        Assoc.find-insert ℕ_discrete (socfd 0) fd nbd [],
      )

  call_relay_handler :
      (fd : ℕ) (w : RelayWorld k)
      → call_handler (relay_reactor abi k malloced new_address socfd).handlers fd w ≡ relay_fd fd w
  unfolding call_handler relay_reactor register_read_handler new_reactor Assoc.find relay_fd invoke
      run_bound bind_free relay_nbd_callable relay_iot_callable
  call_relay_handler fd w =
      ap entry_of (find-relay_reactor fd) ∙ by_place (socfd 1 == fd) (socfd 0 == fd)
    where
      entry_of : Option (Function (RelayWorld k) Object (ℕ → ℕ) ℕ) → Run (RelayWorld k)
      entry_of o = elim o [ none ↦ fault | some func ↦ invoke func w >>= λ r. done r.1 ]

      by_place :
          (device block : Bool)
          → entry_of (
              if device
              then some (bind_free (relay_iot_callable abi k malloced new_address) socfd)
              else if block
              then some (bind_free (relay_nbd_callable abi k malloced new_address) socfd)
              else none)
            ≡ (if device
                then (relay_iot_handle abi k socfd w.pending w.io >>= λ r.
                    done (record { pending = r.0; messages = w.messages; io = r.1 }))
                else if block
                then (relay_nbd_handle abi k malloced (new_address w.pending) socfd w.pending w.io
                    >>= λ r.
                        done
                          (record { pending = r.0; messages = w.messages ++ (r.1 ∷ []); io = r.2 }))
                else fault)
      by_place true block = >>=-done-done (relay_iot_handle abi k socfd w.pending w.io) _ _
      by_place false true =
          >>=-done-done
            (relay_nbd_handle abi k malloced (new_address w.pending) socfd w.pending w.io) _ _
      by_place false false = refl

  -- One round of the event loop of a relay, when `select` returns the number of descriptors in the set that it leaves:
  -- in ascending order, the device's descriptor runs `IotHandle` and the block device's `NbdHandle`.
  pub relay_round :
      (select : SelectCall (RelayWorld k)) (w w' : RelayWorld k) (left : FdSet)
      → let monit = (relay_reactor abi k malloced new_address socfd).monit in
        (select (monit.fd_max + 1) monit.master w
          ≡ (some (length (ready (monit.fd_max + 1) 0 left)), left, w'))
        → state_of (run_round select (relay_reactor abi k malloced new_address socfd) w)
          ≡ serve_each relay_fd
              (ready ((relay_reactor abi k malloced new_address socfd).monit.fd_max + 1) 0 left)
              w'
  relay_round select w w' left e =
      run_round-serve_each select (relay_reactor abi k malloced new_address socfd) relay_fd w w'
        left call_relay_handler e
