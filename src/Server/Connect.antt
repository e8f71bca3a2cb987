-- ===== src/Server/Connect.antt =====
-- The sockets that the server opens.
use private_distributed_clou.Prelude.{
  ℕ, zero, suc, ◌+◌, ◌-◌, ◌≡◌, refl, ap, ◌∙◌, Bool, true, false, if◌then◌else◌, Option, none, some,
  List, [], ◌∷◌, length,
}
use mathlib.Core.Path.{subst}
use private_distributed_clou.Server.{SocketCalls, port, init_socket, connect_devices, open_server}

-- Every entry is a descriptor.
abbrev pub AllOpen : List (Option ℕ) → Type 0
AllOpen [] = Unit {0}
AllOpen (none ∷ fds) = ⊥
AllOpen (some fd ∷ fds) = AllOpen fds

abbrev round_of :
    {Io : Type 0}
    → Option ℕ
    → Bool
    → Option (List (Option ℕ))
    → Io
    → Io
    → Option (List (Option ℕ)) × Io
round_of sock ok rest io io' =
    if ok then (elim rest [ none ↦ none | some gs ↦ some (sock ∷ gs) ], io) else (none, io')

-- One round: the descriptor, whether it was connected, and what the later rounds give.
AllOpen-cons :
    {Io : Type 0} (sock : Option ℕ) (ok : Bool) (rest : Option (List (Option ℕ))) (io io' : Io)
    (rounds : ℕ) (fds : List (Option ℕ))
    → (sock ≡ none → ok ≡ false)
    → ((gs : List (Option ℕ)) → rest ≡ some gs → (length gs ≡ rounds) × AllOpen gs)
    → (round_of sock ok rest io io').0 ≡ some fds
    → (length fds ≡ suc rounds) × AllOpen fds
AllOpen-cons sock false rest io io' rounds fds refused later e = absurd (cc)
AllOpen-cons sock true none io io' rounds fds refused later e = absurd (cc)
AllOpen-cons none true (some gs) io io' rounds fds refused later e = absurd (cc (refused refl))
AllOpen-cons (some fd) true (some gs) io io' rounds [] refused later e = absurd (cc)
AllOpen-cons (some fd) true (some gs) io io' rounds (f ∷ fds) refused later e =
    let same : some fd ∷ gs ≡ f ∷ fds = cc in
    subst (λ hs. (length hs ≡ suc rounds) × AllOpen hs) same
      (let all = later gs refl in (ap suc all.0, all.1))

module _ {Io : Type 0} (calls : SocketCalls Io) where
  -- connect(2) refuses -1.
  abbrev pub RefusesUnset : Type 0
  RefusesUnset = (p : ℕ) (io : Io) → (calls.connect none p io).0 ≡ false

  -- Where `connect` refuses -1: when `main` goes on behind its loop, it has a connected descriptor for each
  -- device, although it drops what `InitSocket` returns.
  connect_devices-AllOpen :
      (rounds i servaddr : ℕ) (io : Io) (fds : List (Option ℕ))
      → RefusesUnset
      → (connect_devices calls rounds i servaddr io).0 ≡ some fds
      → (length fds ≡ rounds) × AllOpen fds
  unfolding connect_devices
  connect_devices-AllOpen zero i servaddr io fds refuses e = by_list fds e
    where
      by_list : (gs : List (Option ℕ)) → some [] ≡ some gs → (length gs ≡ 0) × AllOpen gs
      by_list [] e' = (refl, tt)
      by_list (g ∷ gs) e' = absurd (cc)
  connect_devices-AllOpen (suc rounds) i servaddr io fds refuses e =
      let made = init_socket calls servaddr (port + (i - 1)) io in
      let connected = calls.connect made.sockfd made.servaddr made.io in
      let rest = connect_devices calls rounds (i + 1) made.servaddr connected.1 in
      AllOpen-cons made.sockfd connected.0 rest.0 rest.1 connected.1 rounds fds
        (λ unset.
          ap (λ s. (calls.connect s made.servaddr made.io).0) unset ∙ refuses made.servaddr made.io)
        (λ gs e'. connect_devices-AllOpen rounds (i + 1) made.servaddr connected.1 gs refuses e') e

  -- Where `connect` refuses -1: when `main` comes to its reactor, it has the block device and a connected descriptor for
  -- each of the eight devices.
  open_server-AllOpen :
      (device : Option ℕ) (servaddr : ℕ) (io : Io) (fds : List (Option ℕ))
      → RefusesUnset
      → (open_server calls device servaddr io).0 ≡ some fds
      → (length fds ≡ 9) × AllOpen fds
  unfolding open_server
  open_server-AllOpen none servaddr io fds refuses e = absurd (cc)
  open_server-AllOpen (some device) servaddr io fds refuses e =
      AllOpen-cons (some device) true (connect_devices calls 8 1 servaddr io).0 io io 8 fds
        (λ unset. absurd (cc)) (λ gs e'. connect_devices-AllOpen 8 1 servaddr io gs refuses e') e
