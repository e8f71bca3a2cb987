-- ===== src/Reactor/Rounds.antt =====
-- Which handlers one round of the event loop calls.
use private_distributed_clou.Prelude.{
  ℕ, zero, suc, ◌+◌, ◌≤◌, ◌<◌, ◌≡◌, refl, ap, ◌∙◌, inl, inr, false, Option, none, some, List, [],
  ◌∷◌, arith, ◌==◌, if◌then◌else◌, length, Bool-cases,
}
use mathlib.Core.Path.{fun_ext}
use private_distributed_clou.Run.{Run, done, fault, running, ◌>>=◌}
use private_distributed_clou.Function.{Function}
use private_distributed_clou.Select.{
  FdSet, fd_clr, SelectCall, Select, wait_for_event, scan, get_next_read_fd,
}
use private_distributed_clou.Reactor.{Reactor, call_handler, dispatch_loop, run_round}

-- The descriptors of a set among `i`, `i + 1`, …, of which there are `rounds`, in this order.
unfoldable pub ready : ℕ → ℕ → FdSet → List ℕ
ready zero i s = []
ready (suc rounds) i s = if s i then i ∷ ready rounds (i + 1) s else ready rounds (i + 1) s

fd_clr-at : (x i : ℕ) (s : FdSet) → fd_clr x s i ≡ (if i == x then false else s i)
unfolding fd_clr
fd_clr-at x i s = refl

ready-fd_clr_below :
    (rounds i x : ℕ) (s : FdSet) → x < i → ready rounds i (fd_clr x s) ≡ ready rounds i s
unfolding ready
ready-fd_clr_below zero i x s lt = refl
ready-fd_clr_below (suc rounds) i x s lt =
    ground (arith, fd_clr-at x i s, ready-fd_clr_below rounds (i + 1) x s)

-- The scan finds the first descriptor of the set, and takes it out.
scan-ready :
    (rounds i x : ℕ) (s : FdSet) (xs : List ℕ)
    → ready rounds i s ≡ x ∷ xs
    → (scan rounds i s ≡ (some x, fd_clr x s)) × (ready rounds i (fd_clr x s) ≡ xs) × (i ≤ x)
unfolding ready scan
scan-ready zero i x s xs e = cc
scan-ready (suc rounds) i x s xs e = elim (Bool-cases (s i)) [
  | inl hit ↦
      let here : i ≡ x = ground arith in
      rw (← here) (ground (arith, fd_clr-at i i s, ready-fd_clr_below rounds (i + 1) i s))
  | inr miss ↦ ground (arith, fd_clr-at x i s, scan-ready rounds (i + 1) x s xs)
]

-- What the monitor hands out next, when descriptors are ready.
pub next-ready :
    (m : Select) (x : ℕ) (xs : List ℕ)
    → ready (m.fd_max + 1) 0 m.read_set ≡ x ∷ xs
    → (get_next_read_fd m ≡ (some x, record m { read_set = fd_clr x m.read_set }))
      × (ready (m.fd_max + 1) 0 (fd_clr x m.read_set) ≡ xs)
unfolding get_next_read_fd
next-ready m x xs e =
    let found = scan-ready (m.fd_max + 1) 0 x m.read_set xs e in
    (ap (λ r. (r.0, record m { read_set = r.1 })) found.0, found.1)

-- Descriptors in order, each served by a function of its own.
unfoldable pub serve_each : {W : Type 0} → (ℕ → W → Run W) → List ℕ → W → Run W
serve_each serve [] w = done w
serve_each serve (fd ∷ fds) w = serve fd w >>= serve_each serve fds

module _ {W Object BindArg : Type 0} where
  -- The handlers of the descriptors of a list, in order.
  unfoldable pub call_each : List (ℕ × Function W Object BindArg ℕ) → List ℕ → W → Run W
  call_each handlers [] w = done w
  call_each handlers (fd ∷ fds) w = call_handler handlers fd w >>= call_each handlers fds

  -- Only the world and the set of ready descriptors change.
  abbrev pub state_of : Run (Reactor W Object BindArg × W) → Run W
  state_of r = r >>= λ x. done x.1

  state_of-bind :
      (m : Run W) (f : W → Run (Reactor W Object BindArg × W)) (g : W → Run W)
      → ((x : W) → state_of (f x) ≡ g x)
      → state_of (m >>= f) ≡ (m >>= g)
  state_of-bind (done x) f g h = h x
  state_of-bind fault f g h = refl
  state_of-bind running f g h = refl

  dispatch_loop_lem :
      (fds : List ℕ) (r : Reactor W Object BindArg) (w : W)
      → ready (r.monit.fd_max + 1) 0 r.monit.read_set ≡ fds
      → state_of (dispatch_loop (length fds) r w) ≡ call_each r.handlers fds w
  unfolding dispatch_loop call_each
  dispatch_loop_lem [] r w e = refl
  dispatch_loop_lem (fd ∷ fds) r w e =
      let found = next-ready r.monit fd fds e in
      let left : Select = record (r.monit) { read_set = fd_clr fd r.monit.read_set } in
      ap (λ p. state_of (after p)) found.0
      ∙ state_of-bind (call_handler r.handlers fd w)
          (dispatch_loop (length fds) (record r { monit = left })) (call_each r.handlers fds)
          (λ x. dispatch_loop_lem fds (record r { monit = left }) x found.1)
    where
      after : Option ℕ × Select → Run (Reactor W Object BindArg × W)
      after p = elim p.0 [
        | none ↦ fault
        | some next ↦
            call_handler r.handlers next w >>= dispatch_loop (length fds) (record r { monit = p.1 })
      ]

  -- One round of the event loop, when `select` returns the number of descriptors up to the highest one
  -- in the set that it leaves: the handler of each of these is called once, in ascending order, and no
  -- other. A descriptor without a handler is a call through a null pointer.
  run_round_lem :
      (select : SelectCall W) (r : Reactor W Object BindArg) (w w' : W) (left : FdSet)
      → select (r.monit.fd_max + 1) r.monit.master w
        ≡ (some (length (ready (r.monit.fd_max + 1) 0 left)), left, w')
      → state_of (run_round select r w)
        ≡ call_each r.handlers (ready (r.monit.fd_max + 1) 0 left) w'
  unfolding run_round wait_for_event
  run_round_lem select r w w' left e =
      ap (λ p. state_of (round p)) e
      ∙ dispatch_loop_lem (ready (r.monit.fd_max + 1) 0 left)
          (record r { monit = record (r.monit) { read_set = left } }) w' refl
    where
      round : Option ℕ × FdSet × W → Run (Reactor W Object BindArg × W)
      round p = elim p.0 [
        | none ↦ done (record r { monit = record (r.monit) { read_set = p.1 } }, p.2)
        | some events ↦
            dispatch_loop events (record r { monit = record (r.monit) { read_set = p.1 } }) p.2
      ]

  -- A round, where it is known what each handler does.
  pub run_round-serve_each :
      (select : SelectCall W) (r : Reactor W Object BindArg) (serve : ℕ → W → Run W) (w w' : W)
      (left : FdSet)
      → ((fd : ℕ) (v : W) → call_handler r.handlers fd v ≡ serve fd v)
      → select (r.monit.fd_max + 1) r.monit.master w
        ≡ (some (length (ready (r.monit.fd_max + 1) 0 left)), left, w')
      → state_of (run_round select r w) ≡ serve_each serve (ready (r.monit.fd_max + 1) 0 left) w'
  unfolding call_each serve_each
  run_round-serve_each select r serve w w' left same e =
      run_round_lem select r w w' left e ∙ by_each (ready (r.monit.fd_max + 1) 0 left) w'
    where
      by_each : (fds : List ℕ) (v : W) → call_each r.handlers fds v ≡ serve_each serve fds v
      by_each [] v = refl
      by_each (fd ∷ fds) v =
          ap (λ m. m >>= call_each r.handlers fds) (same fd v)
          ∙ ap (λ (next : W → Run W). serve fd v >>= next) (fun_ext (λ x. by_each fds x))
