-- ===== src/Nbd/Descriptors.antt =====
-- Which descriptors NbdDevOpen leaves open.
use private_distributed_clou.Prelude.{
  ℕ, ◌≡◌, ◌≢◌, ◌⊎◌, inl, inr, Bool, true, false, Option, none, some, ◌==◌, if◌then◌else◌, arith,
  Bool-cases,
}
use private_distributed_clou.Nbd.Device.{
  DeviceKernel, NbdIoctls, clean_up, give_up, hand_over, serve_device,
}

-- Three descriptors that are open and differ.
pub record AreOpen (k : DeviceKernel) (w : k.World) (nbd : ℕ) (sp : ℕ × ℕ) : Type 0 where
  pub open0 : k.is_open w sp.0 ≡ true
  pub open1 : k.is_open w sp.1 ≡ true
  pub open_nbd : k.is_open w nbd ≡ true
  pub differ01 : sp.0 ≢ sp.1
  pub differ0 : sp.0 ≢ nbd
  pub differ1 : sp.1 ≢ nbd

-- A close of an open descriptor that returns -1.
pub record CloseFailed (k : DeviceKernel) : Type 0 where
  pub fd : ℕ
  pub at : k.World
  pub was_open : k.is_open at fd ≡ true
  pub failed : (k.close fd at).0 ≡ false

-- Besides the descriptors `kept`, those that `CleanUp` has not come to are open. This is none, unless the close of the
-- first socket failed, or that of the second.
pub data CleanedUp (k : DeviceKernel) (kept : ℕ → Bool) (nbd : ℕ) (sp : ℕ × ℕ) (w : k.World)
    : Type 0 where
  all_closed : ((j : ℕ) → k.is_open w j ≡ kept j) → CleanedUp k kept nbd sp w
  stopped_first :
      CloseFailed k
      → ((j : ℕ) → k.is_open w j ≡ (if sp.1 == j then true else if nbd == j then true else kept j))
      → CleanedUp k kept nbd sp w
  stopped_second :
      CloseFailed k
      → ((j : ℕ) → k.is_open w j ≡ (if nbd == j then true else kept j))
      → CleanedUp k kept nbd sp w

-- What is open besides the three descriptors.
abbrev others : (k : DeviceKernel) → ℕ → ℕ × ℕ → k.World → ℕ → Bool
others k nbd sp w j =
    if sp.0 == j
    then false
    else if sp.1 == j
    then false
    else if nbd == j
    then false
    else k.is_open w j

-- The child, from three descriptors that are open and differ, either returns the first socket, which it has
-- closed, or it fails, and leaves the other socket and the device open.
pub serve_device_lem :
    (c : NbdIoctls) (k : DeviceKernel) (nbd : ℕ) (sp : ℕ × ℕ) (w : k.World)
    → AreOpen k w nbd sp
    → (((serve_device c k nbd sp w).0 ≡ some sp.0)
        × (k.is_open (serve_device c k nbd sp w).1 sp.0 ≡ false))
      ⊎ (((serve_device c k nbd sp w).0 ≡ none)
          × (k.is_open (serve_device c k nbd sp w).1 sp.1 ≡ true)
          × (k.is_open (serve_device c k nbd sp w).1 nbd ≡ true))
unfolding serve_device give_up hand_over clean_up
serve_device_lem c k nbd sp w o =
    let w1 = (k.close sp.0 w).1 in
    let w2 = (k.ioctl nbd c.do_it 0 w1).1 in
    let closed = k.close_open sp.0 w o.open0 in
    let keeps : ((j : ℕ) → k.is_open w2 j ≡ k.is_open w1 j) =
      λ j. k.ioctl_keeps nbd c.do_it 0 j w1 in
    let closed0 : k.is_open w2 sp.0 ≡ false = ground (arith, keeps sp.0, closed sp.0) in
    let open1 : k.is_open w2 sp.1 ≡ true =
      ground (arith, keeps sp.1, closed sp.1, o.open1, o.differ01) in
    let open_nbd : k.is_open w2 nbd ≡ true =
      ground (arith, keeps nbd, closed nbd, o.open_nbd, o.differ0) in
    elim (Bool-cases (k.ioctl nbd c.do_it 0 w1).0) [
      | inl good ↦
          inl (ground (arith, good), ground (arith, good, k.close_open sp.1 w2 open1 sp.0, closed0))
      | inr bad ↦ inr (
        ground (arith, bad),
        ground (arith, bad, k.close_closed sp.0 w2 closed0, open1),
        ground (arith, bad, k.close_closed sp.0 w2 closed0, open_nbd),
      )
    ]

-- What `set_up` leaves, of three descriptors that are open.
pub record Settled (k : DeviceKernel) (nbd : ℕ) (sp : ℕ × ℕ) (w : k.World) (r : Option ℕ × k.World)
    : Type 0 where
  pub on_success :
      (sock : ℕ)
      → r.0 ≡ some sock
      → (sock ≡ sp.0) × ((j : ℕ) → k.is_open r.1 j ≡ (if sp.1 == j then false else k.is_open w j))
  pub on_failure : r.0 ≡ none → CleanedUp k (others k nbd sp w) nbd sp r.1
