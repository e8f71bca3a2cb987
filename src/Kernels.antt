-- ===== src/Kernels.antt =====
-- A kernel whose calls move at most `chunk` bytes, and the constants of <linux/nbd.h> on a little-endian
-- host: the hypotheses on the parameters can hold.
use private_distributed_clou.Prelude.{
  ℕ, suc, ap, ◌-◌, ◌+◌, ◌*◌, ◌/◌, ◌%◌, ◌^◌, ◌≤◌, ◌<◌, ◌≡◌, ◌≢◌, refl, sym, Option, some, List, [],
  ◌∷◌, ◌++◌, arith, length, take, drop, min, take-append-drop, length-take, slice,
}
use private_distributed_clou.Net.{Kernel}
use private_distributed_clou.Net.Live.{IsLive}
use private_distributed_clou.Net.Duplex.{IsDuplex}
use private_distributed_clou.Nbd.{NbdAbi}

-- What is still to be read, and what was written; all descriptors are one.
pub record Wire : Type 0 where
  pub inbox : List ℕ
  pub outbox : List ℕ

module _ (chunk : ℕ) where
  abbrev pub chunk_read : ℕ → ℕ → Wire → Option (List ℕ) × Wire
  chunk_read fd count w =
      (some (take (min chunk count) w.inbox), record w { inbox = drop (min chunk count) w.inbox })

  abbrev pub chunk_peek : ℕ → ℕ → Wire → Option (List ℕ) × Wire
  chunk_peek fd count w = (some (take (min chunk count) w.inbox), w)

  abbrev pub chunk_write : ℕ → List ℕ → Wire → Option ℕ × Wire
  chunk_write fd bs w = (
    some (min chunk (length bs)),
    record w { outbox = w.outbox ++ take (min chunk (length bs)) bs },
  )

  pub chunk_read_front :
      (fd count : ℕ) (w w' : Wire) (bs : List ℕ)
      → chunk_read fd count w ≡ (some bs, w')
      → (w.inbox ≡ bs ++ w'.inbox) × (length bs ≤ count)
  chunk_read_front fd count w w' bs e =
      let b : bs ≡ take (min chunk count) w.inbox = cc in
      let i : w'.inbox ≡ drop (min chunk count) w.inbox = cc in
      rw (b, i)
        (
          sym (take-append-drop (min chunk count) w.inbox),
          omega (arith, length-take (min chunk count) w.inbox),
        )

  pub chunk_peek_front :
      (fd count : ℕ) (w w' : Wire) (bs : List ℕ)
      → chunk_peek fd count w ≡ (some bs, w')
      → (w'.inbox ≡ w.inbox) × (length bs ≤ count) × ((rest : List ℕ) × (w.inbox ≡ bs ++ rest))
  chunk_peek_front fd count w w' bs e =
      let b : bs ≡ take (min chunk count) w.inbox = cc in
      let i : w'.inbox ≡ w.inbox = cc in
      (
        i,
        rw b (omega (arith, length-take (min chunk count) w.inbox)),
        (drop (min chunk count) w.inbox, rw b (sym (take-append-drop (min chunk count) w.inbox))),
      )

  pub chunk_write_back :
      (fd n : ℕ) (bs : List ℕ) (w w' : Wire)
      → chunk_write fd bs w ≡ (some n, w')
      → (w'.outbox ≡ w.outbox ++ take n bs) × (n ≤ length bs)
  chunk_write_back fd n bs w w' e =
      let m : n ≡ min chunk (length bs) = cc in
      let o : w'.outbox ≡ w.outbox ++ take (min chunk (length bs)) bs = cc in
      rw (m, o) (refl, omega arith)

  abbrev pub chunk_kernel : Kernel
  chunk_kernel = record {
    World = Wire;
    incoming = λ w fd. w.inbox;
    outgoing = λ w fd. w.outbox;
    read = chunk_read;
    peek = chunk_peek;
    write = chunk_write;
    read_front = chunk_read_front;
    peek_front = chunk_peek_front;
    write_back = chunk_write_back;
  }

-- The bytes of a number turned round, four of them.
abbrev pub swap32 : ℕ → ℕ
swap32 a =
    16777216 * (a % 256) + 65536 * (a / 256 % 256) + 256 * (a / 65536 % 256) + a / 16777216 % 256

abbrev pub load_le : List ℕ → ℕ
load_le [] = 0
load_le (b ∷ bs) = b + 256 * load_le bs

pub swap32-lt : (a : ℕ) → swap32 a < 2 ^ 32
swap32-lt a = omega arith

pub zero-ne-one : ◌≢◌ {A = ℕ} 0 1
zero-ne-one e = omega arith

-- The layout of <linux/nbd.h>: 28 bytes, and of the reply the handle alone, for short examples.
abbrev pub linux_abi : NbdAbi
linux_abi = record {
  cmd_read = 0;
  cmd_write = 1;
  request_magic = 0x25609513;
  reply_magic = 0x67446698;
  request_size = 28;
  decode_request = λ bs. record {
    magic = load_le (slice 0 4 bs);
    type = load_le (slice 4 4 bs);
    handle = slice 8 8 bs;
    from = load_le (slice 16 8 bs);
    len = load_le (slice 24 4 bs);
  };
  encode_reply = λ r. r.handle;
  ntohl = swap32;
  htonl = swap32;
  distinct = zero-ne-one;
  ntohl-lt = swap32-lt;
}

-- A kernel whose calls may move a byte moves some.
min-suc : (c n : ℕ) → 0 < n → min (suc c) n ≡ suc (min (suc c) n - 1)
min-suc c n pos = omega (arith, pos)

front_of :
    (c fd count : ℕ) (inbox outbox : List ℕ)
    → 0 < count
    → count ≤ length inbox
    → (b : ℕ) × (bs : List ℕ) × (w' : Wire) × ((chunk_kernel (suc c)).read fd count
          (record { inbox = inbox; outbox = outbox })
        ≡ (some (b ∷ bs), w'))
front_of c fd count [] outbox pos le = absurd (omega (arith, pos, le))
front_of c fd count (b ∷ bs) outbox pos le = (
  b,
  take (min (suc c) count - 1) bs,
  record { inbox = drop (min (suc c) count - 1) bs; outbox = outbox },
  ap (λ (n : ℕ). (some (take n (b ∷ bs)), record { inbox = drop n (b ∷ bs); outbox = outbox }))
      (min-suc c count pos),
)

pub chunk_kernel-IsLive : (c fd : ℕ) → IsLive (chunk_kernel (suc c)) fd
chunk_kernel-IsLive c fd = record {
  reads = λ count w pos le. front_of c fd count w.inbox w.outbox pos le;
  writes = λ bs w pos. (
    min (suc c) (length bs) - 1,
    record w { outbox = w.outbox ++ take (min (suc c) (length bs)) bs },
    ap (λ (n : ℕ). (some n, record w { outbox = w.outbox ++ take (min (suc c) (length bs)) bs }))
        (min-suc c (length bs) pos),
  );
}

-- The two directions are two lists.
pub chunk_kernel-IsDuplex : (c fd other : ℕ) → IsDuplex (chunk_kernel c) fd other
chunk_kernel-IsDuplex c fd other = record {
  read_keeps = λ count w w' r e. let same : w'.outbox ≡ w.outbox = cc in same;
  write_keeps = λ bs w w' r e. let same : w'.inbox ≡ w.inbox = cc in same;
}
