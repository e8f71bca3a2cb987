-- ===== src/Factory.antt =====
-- final_project/framework/include/factory.hpp: a table from keys to creator functions.
use mathlib.Core.Logic.{ite}
use private_distributed_clou.Prelude.{◌≡◌, Option, none, some, List, [], arith}
use private_distributed_clou.Assoc

-- `Factory<BASE, KEY, PARAM>`, whose only field is `m_creators`.
pub record Factory {ℓ} (Base Key Param : Type ℓ) : Type ℓ where
  pub creators : List (Key × (Param → Base))

unfoldable pub empty_factory {ℓ} : {Base Key Param : Type ℓ} → Factory Base Key Param
empty_factory = record { creators = [] }

module _ {ℓ} {Base Key Param : Type ℓ} (same : Discrete Key) where
  -- `Add<DERIVED>(key)`. The argument is `Creator<DERIVED>`, that is `new DERIVED(param)`.
  unfoldable pub add : (Param → Base) → Key → Factory Base Key Param → Factory Base Key Param
  add creator key f = record { creators = Assoc.insert same key creator f.creators }

  -- `Create(key, param)`. `none` is the call through the null pointer that `operator[]` makes for a
  -- key which is not there.
  unfoldable pub create : Key → Param → Factory Base Key Param → Option Base
  create key param f = elim (Assoc.find same key f.creators) [
    | none ↦ none
    | some creator ↦ some (creator param)
  ]

  -- After `Add` under one key, `Create` under that key builds the added class, and under any other key
  -- what it built before, the call through a null pointer included.
  pub create-add :
      (creator : Param → Base) (k j : Key) (p : Param) (f : Factory Base Key Param)
      → create j p (add creator k f) ≡ ite (same k j) (some (creator p)) (create j p f)
  unfolding create add
  create-add creator k j p f = ground (arith, Assoc.find-insert same k j creator f.creators)
