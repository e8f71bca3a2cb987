-- ===== src/Prelude/Lists.antt =====
-- Lists measured and cut by native numbers, under the library's names.
use Prim.Native.Nat.{ℕ, zero, suc, ◌+◌, ◌-◌, min}
use mathlib.Core.Path.{◌≡◌, refl}
use mathlib.Core.List.{List, [], ◌∷◌, ◌++◌}
use native.Mathlib.Omega.{arith}
use private_distributed_clou.Prelude.Tests.{◌==◌, if◌then◌else◌}

module _ {ℓ} {A : Type ℓ} where
  abbrev pub length : List A → ℕ
  length [] = 0
  length (x ∷ xs) = suc (length xs)

  abbrev pub take : ℕ → List A → List A
  take zero xs = []
  take (suc n) [] = []
  take (suc n) (x ∷ xs) = x ∷ take n xs

  abbrev pub drop : ℕ → List A → List A
  drop zero xs = xs
  drop (suc n) [] = []
  drop (suc n) (x ∷ xs) = drop n xs

  pub length-append : (xs ys : List A) → length (xs ++ ys) ≡ length xs + length ys
  length-append [] ys = omega arith
  length-append (x ∷ xs) ys = omega (arith, length-append xs ys)

  pub length-take : (n : ℕ) (xs : List A) → length (take n xs) ≡ min n (length xs)
  length-take zero xs = omega arith
  length-take (suc n) [] = omega arith
  length-take (suc n) (x ∷ xs) = omega (arith, length-take n xs)

  pub length-drop : (n : ℕ) (xs : List A) → length (drop n xs) ≡ length xs - n
  length-drop zero xs = omega arith
  length-drop (suc n) [] = omega arith
  length-drop (suc n) (x ∷ xs) = omega (arith, length-drop n xs)

  pub take-append-drop : (n : ℕ) (xs : List A) → take n xs ++ drop n xs ≡ xs
  take-append-drop zero xs = refl
  take-append-drop (suc n) [] = refl
  take-append-drop (suc n) (x ∷ xs) = rw (take-append-drop n xs)

  -- The `n` items from position `p` on.
  unfoldable pub slice : ℕ → ℕ → List A → List A
  slice p n xs = take n (drop p xs)

-- Equal lists cut at one place have equal parts.
pub append-cancel {ℓ} :
    {A : Type ℓ} (xs ys us vs : List A)
    → length xs ≡ length ys
    → xs ++ us ≡ ys ++ vs
    → (xs ≡ ys) × (us ≡ vs)
append-cancel [] [] us vs n e = (refl, e)
append-cancel [] (y ∷ ys) us vs n e = absurd (omega arith)
append-cancel (x ∷ xs) [] us vs n e = absurd (omega arith)
append-cancel (x ∷ xs) (y ∷ ys) us vs n e =
    let rest = append-cancel xs ys us vs (omega arith) (cc) in (cc, rest.1)

-- How often a number stands in a list.
unfoldable pub count : ℕ → List ℕ → ℕ
count k [] = 0
count k (x ∷ xs) = (if x == k then 1 else 0) + count k xs

pub count-append : (k : ℕ) (xs ys : List ℕ) → count k (xs ++ ys) ≡ count k xs + count k ys
unfolding count
count-append k [] ys = omega arith
count-append k (x ∷ xs) ys = omega (arith, count-append k xs ys)
