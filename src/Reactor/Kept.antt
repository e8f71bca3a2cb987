-- ===== src/Reactor/Kept.antt =====
-- What the handlers of the event loop keep, the loop keeps, whatever `select` returns.
use private_distributed_clou.Prelude.{ℕ, zero, suc, ◌+◌, ◌≡◌, Option, none, some}
use mathlib.Core.Path.{subst}
use private_distributed_clou.Run.{Run, done, fault, ◌>>=◌, >>=-eq-done, done_parts}
use private_distributed_clou.Select.{FdSet, Select, SelectCall, wait_for_event, get_next_read_fd}
use private_distributed_clou.Reactor.{Reactor, call_handler, dispatch_loop, run_round, run_rounds}

abbrev pub SelectKeeps : {W : Type 0} → (W → Type 0) → SelectCall W → Type 0
SelectKeeps {W} I select = (nfds : ℕ) (s : FdSet) (v : W) → I v → I (select nfds s v).2

module _ {W Object BindArg : Type 0} (I : W → Type 0) where
  abbrev pub HandlersKeep : Reactor W Object BindArg → Type 0
  HandlersKeep r = (fd : ℕ) (v v' : W) → call_handler r.handlers fd v ≡ done v' → I v → I v'

  dispatch_loop-keeps :
      (n : ℕ) (r r' : Reactor W Object BindArg) (w w' : W)
      → HandlersKeep r
      → dispatch_loop n r w ≡ done (r', w')
      → I w
      → I w' × HandlersKeep r'
  unfolding dispatch_loop
  dispatch_loop-keeps zero r r' w w' keep e here =
      let (same, world) = done_parts e in (subst I world here, subst HandlersKeep same keep)
  dispatch_loop-keeps (suc n) r r' w w' keep e here =
      by_fd (get_next_read_fd r.monit).0 e
        (λ v rest there. dispatch_loop-keeps n left r' v w' keep rest there)
    where
      left : Reactor W Object BindArg
      left = record r { monit = (get_next_read_fd r.monit).1 }

      by_fd :
          (o : Option ℕ)
          → ◌≡◌ {A = Run (Reactor W Object BindArg × W)}
              (elim o [
                | none ↦ fault
                | some fd ↦ call_handler r.handlers fd w >>= dispatch_loop n left
              ])
              (done (r', w'))
          → ((v : W) → dispatch_loop n left v ≡ done (r', w') → I v → I w' × HandlersKeep r')
          → I w' × HandlersKeep r'
      by_fd none e' later = cc
      by_fd (some fd) e' later =
          let (v, called, rest) = >>=-eq-done (call_handler r.handlers fd w) _ e' in
          later v rest (keep fd w v called here)

  run_round-keeps :
      (select : SelectCall W) (r r' : Reactor W Object BindArg) (w w' : W)
      → SelectKeeps I select
      → HandlersKeep r
      → run_round select r w ≡ done (r', w')
      → I w
      → I w' × HandlersKeep r'
  unfolding run_round wait_for_event
  run_round-keeps select r r' w w' kept keep e here =
      by_count (select (r.monit.fd_max + 1) r.monit.master w).0 e
    where
      monit : Select
      monit = (wait_for_event select r.monit w).1

      v : W
      v = (select (r.monit.fd_max + 1) r.monit.master w).2

      by_count :
          (n : Option ℕ)
          → ◌≡◌ {A = Run (Reactor W Object BindArg × W)}
              (elim n [
                | none ↦ done (record r { monit = monit }, v)
                | some events ↦ dispatch_loop events (record r { monit = monit }) v
              ])
              (done (r', w'))
          → I w' × HandlersKeep r'
      by_count none e' =
          let (same, world) = done_parts e' in
          (subst I world (kept _ _ w here), subst HandlersKeep same keep)
      by_count (some events) e' =
          dispatch_loop-keeps events (record r { monit = monit }) r' v w' keep e' (kept _ _ w here)

  pub run_rounds-keeps :
      (n : ℕ) (select : SelectCall W) (r r' : Reactor W Object BindArg) (w w' : W)
      → SelectKeeps I select
      → HandlersKeep r
      → run_rounds n select r w ≡ done (r', w')
      → I w
      → I w'
  unfolding run_rounds
  run_rounds-keeps zero select r r' w w' kept keep e here = subst I (done_parts e).1 here
  run_rounds-keeps (suc n) select r r' w w' kept keep e here =
      let (next, ran, rest) = >>=-eq-done (run_round select r w) _ e in
      let (there, keep') = run_round-keeps select r next.0 w next.1 kept keep ran here in
      run_rounds-keeps n select next.0 r' next.1 w' kept keep' rest there
