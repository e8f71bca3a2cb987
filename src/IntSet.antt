-- ===== src/IntSet.antt =====
-- std::set<int> as RequestHost uses it: ascending, each number once.
use private_distributed_clou.Prelude.{
  ℕ, ◌≡◌, refl, Bool, true, false, ◌||◌, List, [], ◌∷◌, ltb, ◌==◌, if◌then◌else◌, arith,
}

unfoldable pub contains : ℕ → List ℕ → Bool
contains x [] = false
contains x (y ∷ s) = y == x || contains x s

unfoldable pub insert : ℕ → List ℕ → List ℕ
insert x [] = x ∷ []
insert x (y ∷ s) =
    let rest = insert x s in if ltb x y then x ∷ y ∷ s else if x == y then y ∷ s else y ∷ rest

unfoldable pub erase : ℕ → List ℕ → List ℕ
erase x [] = []
erase x (y ∷ s) = let rest = erase x s in if y == x then rest else y ∷ rest

-- `empty()`.
unfoldable pub is_empty : List ℕ → Bool
is_empty [] = true
is_empty (x ∷ s) = false

pub contains-insert : (k x : ℕ) (s : List ℕ) → contains k (insert x s) ≡ (x == k || contains k s)
unfolding contains insert
contains-insert k x [] = refl
contains-insert k x (y ∷ s) = ground (arith, contains-insert k x s)

pub contains-erase :
    (k x : ℕ) (s : List ℕ) → contains k (erase x s) ≡ (if x == k then false else contains k s)
unfolding contains erase
contains-erase k x [] = ground arith
contains-erase k x (y ∷ s) = ground (arith, contains-erase k x s)

-- A set is empty when no number is in it, and only then.
pub is_empty_of_none : (s : List ℕ) → ((k : ℕ) → contains k s ≡ false) → is_empty s ≡ true
unfolding contains is_empty
is_empty_of_none [] h = refl
is_empty_of_none (x ∷ s) h = ground (arith, h x)

pub none_of_is_empty : (s : List ℕ) → is_empty s ≡ true → (k : ℕ) → contains k s ≡ false
unfolding contains is_empty
none_of_is_empty [] h k = refl
none_of_is_empty (x ∷ s) h k = cc
