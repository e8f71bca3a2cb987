-- ===== src/Examples/Devices.antt =====
-- The block device is opened in a process that has at most the descriptors 3, 4 and 5 to give.
use private_distributed_clou.Prelude.{
  ℕ, ◌≡◌, ◌⊎◌, refl, Bool, true, false, none, some, ◌==◌, ◌||◌, if◌then◌else◌, arith,
}
use private_distributed_clou.Nbd.Device.{DeviceKernel, NbdIoctls, serve_device}
use private_distributed_clou.Nbd.Descriptors.{serve_device_lem}

abbrev set_open : ℕ → Bool → (ℕ → Bool) → ℕ → Bool
set_open fd b opened j = if fd == j then b else opened j

-- `fork` returns `pid`, `ioctl` succeeds except for the request `refused`, and the close of 5 releases it and
-- returns -1.
abbrev three_descriptors : ℕ → ℕ → DeviceKernel
three_descriptors pid refused = record {
  World = ℕ → Bool;
  is_open = λ w. w;
  open_dev = λ w. if w 3 then (none, w) else (some 3, set_open 3 true w);
  socketpair =
      λ w. if w 4 || w 5 then (none, w) else (some (4, 5), set_open 4 true (set_open 5 true w));
  ioctl = λ fd request arg w. (if request == refused then false else true, w);
  fork = λ w. (some pid, w);
  close =
      λ fd w. if w fd then ((if fd == 5 then false else true), set_open fd false w) else (false, w);
  open_dev_some = λ w fd e. (ground (arith, e), λ j. ground (arith, e));
  socketpair_some =
      λ w a b e. (ground (arith, e), ground (arith, e), ground (arith, e), λ j. ground (arith, e));
  ioctl_keeps = λ fd request arg j w. refl;
  fork_keeps = λ j w. refl;
  close_open = λ fd w e j. ground (arith, e);
  close_closed = λ fd w e. ground (arith, e);
}

abbrev ioctls : NbdIoctls
ioctls = record {
  set_blksize = 43777;
  set_size = 43778;
  clear_sock = 43780;
  clear_que = 43781;
  set_sock = 43776;
  set_timeout = 43785;
  do_it = 43779;
}

abbrev nothing_open : ℕ → Bool
nothing_open j = false

-- The process fails at NBD_SET_BLKSIZE.
abbrev refusing : DeviceKernel
refusing = three_descriptors 77 43777

abbrev all_three : ℕ → Bool
all_three j = j == 3 || (j == 4 || j == 5)

-- A child whose NBD_DO_IT fails.
serve_device_lem_example :
    (((serve_device ioctls (three_descriptors 0 43779) 3 (4, 5) all_three).0 ≡ some 4)
      × ((serve_device ioctls (three_descriptors 0 43779) 3 (4, 5) all_three).1 4 ≡ false))
    ⊎ (((serve_device ioctls (three_descriptors 0 43779) 3 (4, 5) all_three).0 ≡ none)
        × ((serve_device ioctls (three_descriptors 0 43779) 3 (4, 5) all_three).1 5 ≡ true)
        × ((serve_device ioctls (three_descriptors 0 43779) 3 (4, 5) all_three).1 3 ≡ true))
serve_device_lem_example =
    serve_device_lem ioctls (three_descriptors 0 43779) 3 (4, 5) all_three
      (record {
        open0 = refl;
        open1 = refl;
        open_nbd = refl;
        differ01 = λ e. omega arith;
        differ0 = λ e. omega arith;
        differ1 = λ e. omega arith;
      })
