-- ===== src/ThreadPool/Tally.antt =====
-- Counting the items of a list that have a property.
use private_distributed_clou.Prelude.{
  ℕ, ◌+◌, ◌≤◌, ◌≡◌, refl, Bool, true, false, List, [], ◌∷◌, ◌++◌, length, if◌then◌else◌, arith,
}
use private_distributed_clou.BtsQueue.{All, top_pop, choose_top}

abbrev pub tally {ℓ} : {A : Type ℓ} → (A → Bool) → List A → ℕ
tally q [] = 0
tally q (x ∷ xs) = (if q x then 1 else 0) + tally q xs

-- The sum of the weights of the items.
abbrev pub total {ℓ} : {A : Type ℓ} → (A → ℕ) → List A → ℕ
total f [] = 0
total f (x ∷ xs) = f x + total f xs

module _ {A : Type 0} where
  pub tally-append : (q : A → Bool) (xs ys : List A) → tally q (xs ++ ys) ≡ tally q xs + tally q ys
  tally-append q [] ys = omega arith
  tally-append q (x ∷ xs) ys = omega (arith, tally-append q xs ys)

  pub total-middle :
      (f : A → ℕ) (xs : List A) (y : A) (ys : List A)
      → total f (xs ++ (y ∷ ys)) ≡ f y + total f (xs ++ ys)
  total-middle f [] y ys = refl
  total-middle f (x ∷ xs) y ys = omega (arith, total-middle f xs y ys)

  pub total-top_pop :
      (less : A → A → Bool) (f : A → ℕ) (x : A) (xs : List A)
      → f (top_pop less x xs).0 + total f (top_pop less x xs).1 ≡ f x + total f xs
  unfolding top_pop
  total-top_pop less f x [] = refl
  total-top_pop less f x (y ∷ ys) = ground (arith, total-top_pop less f y ys)

  pub tally-middle :
      (q : A → Bool) (xs : List A) (y : A) (ys : List A)
      → tally q (xs ++ (y ∷ ys)) ≡ (if q y then 1 else 0) + tally q (xs ++ ys)
  tally-middle q [] y ys = refl
  tally-middle q (x ∷ xs) y ys = omega (arith, tally-middle q xs y ys)

  pub length-middle :
      (xs : List A) (y : A) (ys : List A) → length (xs ++ (y ∷ ys)) ≡ length (xs ++ ys) + 1
  length-middle [] y ys = omega arith
  length-middle (x ∷ xs) y ys = omega (arith, length-middle xs y ys)

  pub All-middle :
      (P : A → Type 0) (xs : List A) (y : A) (ys : List A)
      → All P (xs ++ (y ∷ ys))
      → P y × All P (xs ++ ys)
  All-middle P [] y ys h = h
  All-middle P (x ∷ xs) y ys h = let rest = All-middle P xs y ys h.1 in (rest.0, (h.0, rest.1))

  pub All-append : (P : A → Type 0) (xs ys : List A) → All P xs → All P ys → All P (xs ++ ys)
  All-append P [] ys h h' = h'
  All-append P (x ∷ xs) ys h h' = (h.0, All-append P xs ys h.1 h')

  pub All-snoc : (P : A → Type 0) (xs : List A) (y : A) → All P (xs ++ (y ∷ [])) → All P xs × P y
  All-snoc P [] y h = (tt, h.0)
  All-snoc P (x ∷ xs) y h = let rest = All-snoc P xs y h.1 in ((h.0, rest.0), rest.1)

  pub All-any : (xs : List A) → All (λ _. Unit {0}) xs
  All-any [] = tt
  All-any (x ∷ xs) = (tt, All-any xs)

  pub All-weaken : (P Q : A → Type 0) (xs : List A) → ((x : A) → P x → Q x) → All P xs → All Q xs
  All-weaken P Q [] f h = tt
  All-weaken P Q (x ∷ xs) f h = (f x h.0, All-weaken P Q xs f h.1)

  pub tally-le-length : (q : A → Bool) (xs : List A) → tally q xs ≤ length xs
  tally-le-length q [] = omega arith
  tally-le-length q (x ∷ xs) = ground (arith, tally-le-length q xs)

  -- What a pop does to a count, to a property of all items, and to the number of items.
  pub tally-top_pop :
      (less : A → A → Bool) (q : A → Bool) (x : A) (xs : List A)
      → (if q (top_pop less x xs).0 then 1 else 0) + tally q (top_pop less x xs).1
        ≡ (if q x then 1 else 0) + tally q xs
  unfolding top_pop
  tally-top_pop less q x [] = refl
  tally-top_pop less q x (y ∷ ys) = ground (arith, tally-top_pop less q y ys)

  pub All-top_pop :
      (less : A → A → Bool) (P : A → Type 0) (x : A) (xs : List A)
      → P x
      → All P xs
      → P (top_pop less x xs).0 × All P (top_pop less x xs).1
  unfolding top_pop
  All-top_pop less P x [] h all = (h, tt)
  All-top_pop less P x (y ∷ ys) h all =
      by_test (less x (top_pop less y ys).0) (All-top_pop less P y ys all.0 all.1)
    where
      by_test :
          (b : Bool)
          → P (top_pop less y ys).0 × All P (top_pop less y ys).1
          → P (choose_top b x (top_pop less y ys) (y ∷ ys)).0
            × All P (choose_top b x (top_pop less y ys) (y ∷ ys)).1
      by_test true rest = (rest.0, (h, rest.1))
      by_test false rest = (h, all)
