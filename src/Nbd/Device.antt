-- ===== src/Nbd/Device.antt =====
-- NbdDevOpen and CleanUp of final_project/framework/src/nbd/nbd_comm.c: the block device is opened and
-- tied to a pair of sockets.
use private_distributed_clou.Prelude.{
  ℕ, ◌≡◌, ◌≢◌, Bool, true, false, Option, none, some, List, [], ◌∷◌, ◌==◌, if◌then◌else◌,
}
use private_distributed_clou.Run.{Run, done, fault}

-- The system calls, and which descriptors are open. `false` and `none` are a result of -1.
pub record DeviceKernel : Type 1 where
  pub World : Type 0
  pub is_open : World → ℕ → Bool
  pub open_dev : World → Option ℕ × World
  pub socketpair : World → Option (ℕ × ℕ) × World
  pub ioctl : ℕ → ℕ → ℕ → World → Bool × World
  pub fork : World → Option ℕ × World
  pub close : ℕ → World → Bool × World
  -- open(2) and socketpair(2) give descriptors that were not open.
  pub open_dev_some :
      (w : World) (fd : ℕ)
      → (open_dev w).0 ≡ some fd
      → (is_open w fd ≡ false)
        × ((j : ℕ) → is_open (open_dev w).1 j ≡ (if fd == j then true else is_open w j))
  pub socketpair_some :
      (w : World) (a b : ℕ)
      → (socketpair w).0 ≡ some (a, b)
      → (is_open w a ≡ false)
        × (is_open w b ≡ false)
        × (a ≢ b)
        × ((j : ℕ)
            → is_open (socketpair w).1 j
              ≡ (if a == j then true else if b == j then true else is_open w j))
  -- ioctl(2) and fork(2) open and close nothing.
  pub ioctl_keeps :
      (fd request arg j : ℕ) (w : World) → is_open (ioctl fd request arg w).1 j ≡ is_open w j
  pub fork_keeps : (j : ℕ) (w : World) → is_open (fork w).1 j ≡ is_open w j
  -- close(2) of an open descriptor releases it, also when it returns -1, and of any other fails.
  pub close_open :
      (fd : ℕ) (w : World)
      → is_open w fd ≡ true
      → (j : ℕ) → is_open (close fd w).1 j ≡ (if fd == j then false else is_open w j)
  pub close_closed : (fd : ℕ) (w : World) → is_open w fd ≡ false → close fd w ≡ (false, w)

-- The requests of ioctl in <linux/nbd.h>.
pub record NbdIoctls : Type 0 where
  pub set_blksize : ℕ
  pub set_size : ℕ
  pub clear_sock : ℕ
  pub clear_que : ℕ
  pub set_sock : ℕ
  pub set_timeout : ℕ
  pub do_it : ℕ

module _ (k : DeviceKernel) where
  -- `CleanUp(arr, size)`: it stops at the first descriptor that does not close.
  unfoldable pub clean_up : List ℕ → k.World → Bool × k.World
  clean_up [] w = (true, w)
  clean_up (fd ∷ fds) w =
      let rest = clean_up fds (k.close fd w).1 in
      if (k.close fd w).0 then rest else (false, (k.close fd w).1)

  -- Calls of ioctl, up to the first that fails.
  unfoldable pub configure : ℕ → List (ℕ × ℕ) → k.World → Bool × k.World
  configure nbd [] w = (true, w)
  configure nbd (r ∷ rs) w =
      let rest = configure nbd rs (k.ioctl nbd r.0 r.1 w).1 in
      if (k.ioctl nbd r.0 r.1 w).0 then rest else (false, (k.ioctl nbd r.0 r.1 w).1)

-- The calls of ioctl before `fork`.
unfoldable pub settings : NbdIoctls → ℕ → ℕ → List (ℕ × ℕ)
settings c size sock =
    (c.set_blksize, 1024)
    ∷ (c.set_size, size)
    ∷ (c.clear_sock, 0)
    ∷ (c.clear_que, 0)
    ∷ (c.set_sock, sock)
    ∷ (c.set_timeout, 30)
    ∷ []

module _ (c : NbdIoctls) (k : DeviceKernel) where
  -- What follows the loop: `CleanUp`, and -1.
  unfoldable pub give_up : ℕ → ℕ × ℕ → k.World → Option ℕ × k.World
  unfolding clean_up
  give_up nbd sp w = (none, (clean_up k (sp.0 ∷ sp.1 ∷ nbd ∷ []) w).1)

  -- `close(sp[1]); return sp[0];`.
  unfoldable pub hand_over : ℕ × ℕ → k.World → Option ℕ × k.World
  hand_over sp w = (some sp.0, (k.close sp.1 w).1)

  -- The child, from `close(sp[0])` on.
  unfoldable pub serve_device : ℕ → ℕ × ℕ → k.World → Option ℕ × k.World
  unfolding give_up hand_over
  serve_device nbd sp w =
      let served = k.ioctl nbd c.do_it 0 (k.close sp.0 w).1 in
      if served.0 then hand_over sp served.1 else give_up nbd sp served.1

  -- From `fork` on.
  unfoldable pub split_process : ℕ → ℕ × ℕ → k.World → Option ℕ × k.World
  unfolding give_up hand_over serve_device
  split_process nbd sp w = elim (k.fork w).0 [
    | none ↦ give_up nbd sp (k.fork w).1
    | some pid ↦ if pid == 0 then serve_device nbd sp (k.fork w).1 else hand_over sp (k.fork w).1
  ]

  -- From the first ioctl on.
  unfoldable pub set_up : ℕ → ℕ → ℕ × ℕ → k.World → Option ℕ × k.World
  unfolding configure settings split_process
  set_up size nbd sp w =
      let configured = configure k nbd (settings c size sp.1) w in
      if configured.0 then split_process nbd sp configured.1 else give_up nbd sp configured.1

  -- `NbdDevOpen(dev_name, size)`. When `open` or `socketpair` fails, the unset array `sp` is closed.
  unfoldable pub nbd_dev_open : ℕ → k.World → Run (Option ℕ × k.World)
  unfolding set_up
  nbd_dev_open size w = elim (k.open_dev w).0 [
    | none ↦ fault
    | some nbd ↦ elim (k.socketpair (k.open_dev w).1).0 [
      | none ↦ fault
      | some sp ↦ done (set_up size nbd sp (k.socketpair (k.open_dev w).1).1)
    ]
  ]
