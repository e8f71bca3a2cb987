-- ===== src/Select.antt =====
-- final_project/framework/src/rector/monitor.hpp, select.hpp and select.cpp: the monitor over select(2).
use private_distributed_clou.Prelude.{
  ℕ, zero, suc, ◌+◌, Bool, true, false, Option, none, some, ltb, ◌==◌, if◌then◌else◌,
}

-- `fd_set`, with what FD_ZERO, FD_SET, FD_CLR and FD_ISSET do to it.
abbrev pub FdSet : Type 0
FdSet = ℕ → Bool

abbrev pub fd_zero : FdSet
fd_zero = λ _. false

unfoldable pub fd_set : ℕ → FdSet → FdSet
fd_set fd s i = if i == fd then true else s i

unfoldable pub fd_clr : ℕ → FdSet → FdSet
fd_clr fd s i = if i == fd then false else s i

-- `select(nfds, &readfds, NULL, NULL, NULL)`: the number of descriptors in the set that it leaves, or
-- `none` for -1.
abbrev pub SelectCall : Type 0 → Type 0
SelectCall W = ℕ → FdSet → W → Option ℕ × FdSet × W

-- `class Select`.
pub record Select : Type 0 where
  pub read_set : FdSet
  pub master : FdSet
  pub fd_max : ℕ

unfoldable pub new_select : Select
new_select = record { read_set = fd_zero; master = fd_zero; fd_max = 0 }

-- `WaitForEvent()`.
unfoldable pub wait_for_event : {W : Type 0} → SelectCall W → Select → W → Option ℕ × Select × W
wait_for_event select s w =
    let (n, left, w') = select (s.fd_max + 1) s.master w in (n, record s { read_set = left }, w')

-- The loop of `GetNextReadFd` from `i` on; `none` is -1.
unfoldable pub scan : ℕ → ℕ → FdSet → Option ℕ × FdSet
scan zero i s = (none, s)
scan (suc rounds) i s =
    let rest = scan rounds (i + 1) s in if s i then (some i, fd_clr i s) else rest

-- `GetNextReadFd()`.
unfoldable pub get_next_read_fd : Select → Option ℕ × Select
unfolding scan
get_next_read_fd s =
    let (fd, left) = scan (s.fd_max + 1) 0 s.read_set in (fd, record s { read_set = left })

-- `SetRead(fd)` and `ClearRead(fd)`.
unfoldable pub set_read : ℕ → Select → Select
set_read fd s = record s {
  master = fd_set fd s.master;
  fd_max = if ltb s.fd_max fd then fd else s.fd_max;
}

unfoldable pub clear_read : ℕ → Select → Select
clear_read fd s = record s { master = fd_clr fd s.master }
