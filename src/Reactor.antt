-- ===== src/Reactor.antt =====
-- final_project/framework/src/rector/reactor.hpp: the event loop.
pub mod Kept
pub mod Rounds
pub mod Single
use private_distributed_clou.Prelude.{ℕ, zero, suc, Option, none, some, List, [], ◌∷◌, ℕ_discrete}
use private_distributed_clou.Run.{Run, done, fault, running, ◌>>=◌}
use private_distributed_clou.Assoc
use private_distributed_clou.Function.{Function, invoke}
use private_distributed_clou.Select.{
  Select, SelectCall, new_select, wait_for_event, get_next_read_fd, set_read,
}

-- `Reactor<Select>`: the handlers and the monitor.
pub record Reactor (W Object BindArg : Type 0) : Type 0 where
  pub handlers : List (ℕ × Function W Object BindArg ℕ)
  pub monit : Select

module _ {W Object BindArg : Type 0} where
  unfoldable pub new_reactor : Reactor W Object BindArg
  new_reactor = record { handlers = []; monit = new_select }

  -- `RegisterReadHandler(fd, func)`.
  unfoldable pub register_read_handler :
      ℕ → Function W Object BindArg ℕ → Reactor W Object BindArg → Reactor W Object BindArg
  register_read_handler fd func r = record {
    handlers = Assoc.insert ℕ_discrete fd func r.handlers;
    monit = set_read fd r.monit;
  }

  -- `m_handlers[fd]()`. A descriptor with no handler gets an empty `Function`, whose call goes through a
  -- null pointer.
  unfoldable pub call_handler : List (ℕ × Function W Object BindArg ℕ) → ℕ → W → Run W
  call_handler handlers fd w = elim (Assoc.find ℕ_discrete fd handlers) [
    | none ↦ fault
    | some func ↦ invoke func w >>= λ r. done r.1
  ]

  -- The `for` loop of `Run`, with `n` rounds left. No handler is registered for -1.
  unfoldable pub dispatch_loop :
      ℕ → Reactor W Object BindArg → W → Run (Reactor W Object BindArg × W)
  unfolding call_handler
  dispatch_loop zero r w = done (r, w)
  dispatch_loop (suc n) r w = elim (get_next_read_fd r.monit).0 [
    | none ↦ fault
    | some fd ↦
        call_handler r.handlers fd w
        >>= dispatch_loop n (record r { monit = (get_next_read_fd r.monit).1 })
  ]

  -- One round of the `while` loop of `Run`. On -1 no handler is called.
  unfoldable pub run_round :
      SelectCall W → Reactor W Object BindArg → W → Run (Reactor W Object BindArg × W)
  unfolding dispatch_loop
  run_round select r w =
      let (n, monit, w') = wait_for_event select r.monit w in
      elim n [
        | none ↦ done (record r { monit = monit }, w')
        | some events ↦ dispatch_loop events (record r { monit = monit }) w'
      ]

  -- `Run()`, for a number of rounds of its `while (1)`.
  unfoldable pub run_rounds :
      ℕ → SelectCall W → Reactor W Object BindArg → W → Run (Reactor W Object BindArg × W)
  unfolding run_round
  run_rounds zero select r w = done (r, w)
  run_rounds (suc n) select r w = run_round select r w >>= λ next. run_rounds n select next.0 next.1
