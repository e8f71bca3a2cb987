-- ===== src/Reactor/Single.antt =====
-- The event loop of a reactor with one descriptor.
use private_distributed_clou.Prelude.{
  ℕ, zero, suc, ◌+◌, ◌≡◌, ap, ◌∙◌, Option, none, some, [], ◌∷◌, arith, ◌==◌, ℕ_discrete,
}
use mathlib.Core.Path.{fun_ext}
use private_distributed_clou.Run.{Run, done, fault, ◌>>=◌, >>=-done-done}
use private_distributed_clou.Assoc
use private_distributed_clou.Function.{Function, invoke}
use private_distributed_clou.Select.{
  FdSet, Select, SelectCall, fd_clr, fd_set, set_read, new_select, wait_for_event,
}
use private_distributed_clou.Reactor.{
  Reactor, new_reactor, register_read_handler, call_handler, dispatch_loop, run_round,
}
use private_distributed_clou.Reactor.Rounds.{ready, next-ready}

abbrev pub only : ℕ → FdSet
only fd i = i == fd

-- Up to the descriptor itself, it is the one that is ready.
ready-only_below : (rounds i fd : ℕ) → i + rounds ≡ fd → ready (rounds + 1) i (only fd) ≡ fd ∷ []
unfolding ready
ready-only_below zero i fd e = ground arith
ready-only_below (suc rounds) i fd e =
    ground (arith, ready-only_below rounds (i + 1) fd (omega arith))

module _ {W Object BindArg : Type 0} where
  -- The descriptor alone is registered, with its handler.
  pub record IsSingle (fd : ℕ) (func : Function W Object BindArg ℕ) (r : Reactor W Object BindArg)
      : Type 0 where
    pub handler : Assoc.find ℕ_discrete fd r.handlers ≡ some func
    pub watched : r.monit.master ≡ only fd
    pub highest : r.monit.fd_max ≡ fd

  -- One round of such a reactor, when `select` leaves its descriptor: the handler is called once, and
  -- the descriptor stays registered.
  pub run_round-IsSingle :
      (select : SelectCall W) (fd : ℕ) (func : Function W Object BindArg ℕ)
      (r : Reactor W Object BindArg) (w w' : W)
      → IsSingle fd func r
      → select (fd + 1) (only fd) w ≡ (some 1, only fd, w')
      → (r' : Reactor W Object BindArg) × IsSingle fd func r'
        × (run_round select r w ≡ (invoke func w' >>= λ x. done (r', x.1)))
  unfolding run_round wait_for_event dispatch_loop call_handler
  run_round-IsSingle select fd func r w w' single e =
      let found =
        next-ready (record (r.monit) { read_set = only fd }) fd []
          (rw single.highest (ready-only_below fd 0 fd (omega arith))) in
      let left : Select = record (r.monit) { read_set = fd_clr fd (only fd) } in
      let answer : select (r.monit.fd_max + 1) r.monit.master w ≡ (some 1, only fd, w') =
        rw (single.highest, single.watched) e in
      (
        record r { monit = left },
        record { handler = single.handler; watched = single.watched; highest = single.highest },
        ap round answer
            ∙ ap after found.0
            ∙ ap (λ o. called o >>= λ x. done (record r { monit = left }, x)) single.handler
            ∙ >>=-done-done (invoke func w') _ _,
      )
    where
      round : Option ℕ × FdSet × W → Run (Reactor W Object BindArg × W)
      round p = elim p.0 [
        | none ↦ done (record r { monit = record (r.monit) { read_set = p.1 } }, p.2)
        | some events ↦
            dispatch_loop events (record r { monit = record (r.monit) { read_set = p.1 } }) p.2
      ]

      after : Option ℕ × Select → Run (Reactor W Object BindArg × W)
      after p = elim p.0 [
        | none ↦ fault
        | some next ↦ call_handler r.handlers next w' >>= dispatch_loop 0 (record r { monit = p.1 })
      ]

      called : Option (Function W Object BindArg ℕ) → Run W
      called o = elim o [ none ↦ fault | some f ↦ invoke f w' >>= λ x. done x.1 ]

  -- A reactor in which one handler was registered.
  pub register-IsSingle :
      (fd : ℕ) (func : Function W Object BindArg ℕ)
      → IsSingle fd func (register_read_handler fd func new_reactor)
  unfolding register_read_handler new_reactor new_select set_read fd_set Assoc.find Assoc.insert
  register-IsSingle fd func = record {
    handler = ground arith;
    watched = fun_ext (λ i. ground arith);
    highest = ground arith;
  }
