-- ===== src/Nbd/Bytes.antt =====
-- The byte order of 64-bit numbers: `ntohll` of nbd_comm.c.
use private_distributed_clou.Prelude.{ℕ, ◌+◌, ◌*◌, ◌/◌, ◌%◌, ◌^◌, ◌<◌, ◌≡◌, arith}
use private_distributed_clou.Nbd.{ntohll}

-- Four bytes of memory as a little-endian host loads them, and in network order.
abbrev pub le32 : ℕ → ℕ → ℕ → ℕ → ℕ
le32 a b c d = a + 256 * b + 65536 * c + 16777216 * d

abbrev pub be32 : ℕ → ℕ → ℕ → ℕ → ℕ
be32 a b c d = 16777216 * a + 65536 * b + 256 * c + d

-- A byte.
abbrev pub IsByte : ℕ → Type 0
IsByte a = a < 256

-- On a little-endian host, where `ntohl` turns the order of four bytes, `ntohll` turns the order of
-- eight: it reads the number that the peer wrote in network order.
pub ntohll-le :
    (ntohl : ℕ → ℕ)
    → ((a b c d : ℕ)
        → IsByte a
        → IsByte b
        → IsByte c
        → IsByte d
        → ntohl (le32 a b c d) ≡ be32 a b c d)
    → (a b c d e f g h : ℕ) → IsByte a
    → IsByte b
    → IsByte c
    → IsByte d
    → IsByte e
    → IsByte f
    → IsByte g
    → IsByte h
    → ntohll ntohl (le32 a b c d + 4294967296 * le32 e f g h)
      ≡ 4294967296 * be32 a b c d + be32 e f g h
unfolding ntohll
ntohll-le ntohl swap a b c d e f g h pa pb pc pd pe pf pg ph =
    let low : (le32 a b c d + 4294967296 * le32 e f g h) % 2 ^ 32 ≡ le32 a b c d = omega arith in
    let high : (le32 a b c d + 4294967296 * le32 e f g h) / 2 ^ 32 ≡ le32 e f g h = omega arith in
    rw (low, high, swap a b c d pa pb pc pd, swap e f g h pe pf pg ph) (omega arith)

-- On a big-endian host, where `ntohl` changes nothing, `ntohll` swaps the two halves, and so changes
-- each number whose halves differ.
pub ntohll-be :
    (ntohl : ℕ → ℕ)
    → ((a : ℕ) → a < 2 ^ 32 → ntohl a ≡ a)
    → (lo hi : ℕ) → lo < 2 ^ 32
    → hi < 2 ^ 32
    → ntohll ntohl (lo + 2 ^ 32 * hi) ≡ hi + 2 ^ 32 * lo
unfolding ntohll
ntohll-be ntohl same lo hi l h =
    let low : (lo + 2 ^ 32 * hi) % 2 ^ 32 ≡ lo = omega arith in
    let high : (lo + 2 ^ 32 * hi) / 2 ^ 32 ≡ hi = omega arith in
    rw (low, high, same lo l, same hi h) (omega arith)
