-- ===== src/Assoc.antt =====
-- std::unordered_map and std::map as the sources use them: one value for each key, by `find`, `insert`
-- (`m[k] = v`) and `erase`.
use mathlib.Core.Logic.{ite}
use private_distributed_clou.Prelude.{◌≡◌, refl, Option, none, some, List, [], ◌∷◌, arith}

module _ {ℓ} {K V : Type ℓ} (same : Discrete K) where
  unfoldable pub find : K → List (K × V) → Option V
  find k [] = none
  find k ((j, v) ∷ m) = ite (same j k) (some v) (find k m)

  unfoldable pub insert : K → V → List (K × V) → List (K × V)
  insert k v [] = (k, v) ∷ []
  insert k v ((j, w) ∷ m) = ite (same j k) ((k, v) ∷ m) ((j, w) ∷ insert k v m)

  unfoldable pub erase : K → List (K × V) → List (K × V)
  erase k [] = []
  erase k ((j, v) ∷ m) = ite (same j k) (erase k m) ((j, v) ∷ erase k m)

  pub find-insert :
      (k j : K) (v : V) (m : List (K × V))
      → find j (insert k v m) ≡ ite (same k j) (some v) (find j m)
  unfolding find insert
  find-insert k j v [] = refl
  find-insert k j v ((i, w) ∷ m) = ground (arith, find-insert k j v m)

  pub find-erase :
      (k j : K) (m : List (K × V)) → find j (erase k m) ≡ ite (same k j) none (find j m)
  unfolding find erase
  find-erase k j [] = ground arith
  find-erase k j ((i, w) ∷ m) = ground (arith, find-erase k j m)
