-- ===== src/Memory.antt =====
-- Arrays of bytes: what `memcpy` and the receive loops leave in a buffer.
use private_distributed_clou.Prelude.{
  ℕ, zero, suc, ◌+◌, ◌-◌, ◌≤◌, ◌≡◌, refl, ◌&&◌, Option, none, some, List, [], ◌∷◌, ltb, leb,
  if◌then◌else◌, arith, length, take, drop, slice, min, length-take, length-drop,
}

module _ {A : Type 0} where
  abbrev pub get_elem? : List A → ℕ → Option A
  get_elem? [] i = none
  get_elem? (x ∷ xs) zero = some x
  get_elem? (x ∷ xs) (suc i) = get_elem? xs i

  -- `bs` over the first items of a buffer.
  overlay : List A → List A → List A
  overlay [] xs = xs
  overlay (b ∷ bs) [] = []
  overlay (b ∷ bs) (x ∷ xs) = b ∷ overlay bs xs

  -- `bs` over the items from position `p` on. The callers test that they fit.
  unfoldable pub write_at : ℕ → List A → List A → List A
  unfolding overlay
  write_at zero bs xs = overlay bs xs
  write_at (suc p) bs [] = []
  write_at (suc p) bs (x ∷ xs) = x ∷ write_at p bs xs

  length-overlay : (bs xs : List A) → length (overlay bs xs) ≡ length xs
  unfolding overlay
  length-overlay [] xs = refl
  length-overlay (b ∷ bs) [] = refl
  length-overlay (b ∷ bs) (x ∷ xs) = omega (arith, length-overlay bs xs)

  pub length-write_at : (p : ℕ) (bs xs : List A) → length (write_at p bs xs) ≡ length xs
  unfolding write_at
  length-write_at zero bs xs = length-overlay bs xs
  length-write_at (suc p) bs [] = refl
  length-write_at (suc p) bs (x ∷ xs) = omega (arith, length-write_at p bs xs)

  get_elem?-overlay :
      (bs xs : List A) (i : ℕ)
      → length bs ≤ length xs
      → get_elem? (overlay bs xs) i ≡ (if ltb i (length bs) then get_elem? bs i else get_elem? xs i)
  unfolding overlay
  get_elem?-overlay [] xs i h = ground arith
  get_elem?-overlay (b ∷ bs) [] i h = absurd (omega arith)
  get_elem?-overlay (b ∷ bs) (x ∷ xs) zero h = ground arith
  get_elem?-overlay (b ∷ bs) (x ∷ xs) (suc i) h =
      ground (arith, get_elem?-overlay bs xs i (omega arith))

  -- Behind a write that fits, the items of its range are the written ones and all others as before.
  pub get_elem?-write_at :
      (p : ℕ) (bs xs : List A) (i : ℕ)
      → p + length bs ≤ length xs
      → get_elem? (write_at p bs xs) i
        ≡ (if leb p i && ltb i (p + length bs) then get_elem? bs (i - p) else get_elem? xs i)
  unfolding write_at
  get_elem?-write_at zero bs xs i h = ground (arith, get_elem?-overlay bs xs i (omega arith))
  get_elem?-write_at (suc p) bs [] i h = absurd (omega arith)
  get_elem?-write_at (suc p) bs (x ∷ xs) zero h = ground arith
  get_elem?-write_at (suc p) bs (x ∷ xs) (suc i) h =
      ground (arith, get_elem?-write_at p bs xs i (omega arith))

  get_elem?-drop : (p : ℕ) (xs : List A) (i : ℕ) → get_elem? (drop p xs) i ≡ get_elem? xs (p + i)
  get_elem?-drop zero xs i = ground arith
  get_elem?-drop (suc p) [] i = ground arith
  get_elem?-drop (suc p) (x ∷ xs) i = ground (arith, get_elem?-drop p xs i)

  pub get_elem?-take :
      (n : ℕ) (xs : List A) (i : ℕ)
      → get_elem? (take n xs) i ≡ (if ltb i n then get_elem? xs i else none)
  get_elem?-take zero xs i = ground arith
  get_elem?-take (suc n) [] i = ground arith
  get_elem?-take (suc n) (x ∷ xs) zero = ground arith
  get_elem?-take (suc n) (x ∷ xs) (suc i) = ground (arith, get_elem?-take n xs i)

  pub length-slice : (p n : ℕ) (xs : List A) → length (slice p n xs) ≡ min n (length xs - p)
  unfolding slice
  length-slice p n xs = omega (arith, length-take n (drop p xs), length-drop p xs)

  pub get_elem?-slice :
      (p n : ℕ) (xs : List A) (i : ℕ)
      → get_elem? (slice p n xs) i ≡ (if ltb i n then get_elem? xs (p + i) else none)
  unfolding slice
  get_elem?-slice p n xs i = ground (arith, get_elem?-take n (drop p xs) i, get_elem?-drop p xs i)

-- `memcpy(dst + q, src + p, n)` inside both arrays.
pub get_elem?-copy :
    {A : Type 0} (p n : ℕ) (src : List A) (q : ℕ) (dst : List A) (i : ℕ)
    → p + n ≤ length src
    → q + n ≤ length dst
    → get_elem? (write_at q (slice p n src) dst) i
      ≡ (if leb q i && ltb i (q + n) then get_elem? src (p + (i - q)) else get_elem? dst i)
get_elem?-copy p n src q dst i from to =
    let size = length-slice p n src in
    ground (
      arith,
      get_elem?-write_at q (slice p n src) dst i (omega (arith, size)),
      get_elem?-slice p n src (i - q),
    )
