-- ===== src/Run.antt =====
-- The result of code that may loop and may have undefined behaviour or a failed assertion.
use private_distributed_clou.Prelude.{◌≡◌, refl}

pub data Run {ℓ} (A : Type ℓ) : Type ℓ where
  -- The code returns.
  done : A → Run A
  -- A null or dangling pointer is used, or an `assert` fails.
  fault : Run A
  -- The fuel of a loop ran out.
  running : Run A

infixl 5 ◌>>=◌
abbrev pub ◌>>=◌ {ℓ κ} : {A : Type ℓ} {B : Type κ} → Run A → (A → Run B) → Run B
done a >>= f = f a
fault >>= f = fault
running >>= f = running

-- A successful chain is a chain of successes.
pub >>=-eq-done {ℓ κ} :
    {A : Type ℓ} {B : Type κ} (m : Run A) (f : A → Run B) {b : B}
    → (m >>= f) ≡ done b
    → (a : A) × (m ≡ done a) × (f a ≡ done b)
>>=-eq-done (done a) f h = (a, refl, h)
>>=-eq-done fault f h = cc
>>=-eq-done running f h = cc

pub done_injective {ℓ} : {A : Type ℓ} {a b : A} → done a ≡ done b → a ≡ b
done_injective e = cc

-- What returns one pair returns its parts.
pub done_parts {ℓ} :
    {A B : Type ℓ} {a a' : A} {b b' : B}
    → ◌≡◌ {A = Run (A × B)} (done (a, b)) (done (a', b'))
    → (a ≡ a') × (b ≡ b')
done_parts e = (cc, cc)

-- Two results in a row that cannot fail.
pub >>=-done-done :
    {A B C : Type 0} (m : Run A) (f : A → B) (g : B → C)
    → (m >>= (λ a. done (f a)) >>= (λ b. done (g b))) ≡ (m >>= λ a. done (g (f a)))
>>=-done-done (done a) f g = refl
>>=-done-done fault f g = refl
>>=-done-done running f g = refl
