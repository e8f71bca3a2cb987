-- ===== src/BtsQueue.antt =====
-- final_project/framework/src/BTreadSafeQ/BTreadSafeQ.hpp: a blocking priority queue for many threads. The
-- items are a list, and `std::priority_queue` is its documented behaviour: `top` is an item that no
-- other item exceeds. `Enqueue` unlocks before it notifies, so that it is two steps; `Dequeue` and
-- `Clear` hold the mutex except inside `m_cond.wait`.
use private_distributed_clou.Prelude.{
  ℕ, ◌+◌, ◌-◌, ◌≤◌, ◌<◌, ◌≡◌, ◌⊎◌, inl, inr, refl, Bool, true, false, Option, none, some, List, [],
  ◌∷◌, length, ltb, if◌then◌else◌, arith,
}
use mathlib.Core.List.{Perm}
use mathlib.Core.List.Perm

-- The top of `x ∷ xs`, given whether the top of `xs` exceeds `x`.
abbrev pub choose_top : {A : Type 0} → Bool → A → A × List A → List A → A × List A
choose_top true x rest xs = (rest.0, x ∷ rest.1)
choose_top false x rest xs = (x, xs)

-- Every item of a list has the property.
abbrev pub All : {A : Type 0} → (A → Type 0) → List A → Type 0
All P [] = Unit {0}
All P (x ∷ xs) = P x × All P xs

All-map :
    {A : Type 0} {P Q : A → Type 0} (xs : List A) → ((x : A) → P x → Q x) → All P xs → All Q xs
All-map [] f h = tt
All-map (x ∷ xs) f h = (f x h.0, All-map xs f h.1)

module _ {A : Type 0} (less : A → A → Bool) where
  -- `top()` of the items `x ∷ xs`, and the items that `pop()` leaves.
  unfoldable pub top_pop : A → List A → A × List A
  top_pop x [] = (x, [])
  top_pop x (y ∷ ys) = let rest = top_pop y ys in choose_top (less x rest.0) x rest (y ∷ ys)

  choose_top-perm :
      (b : Bool) (x : A) (rest : A × List A) (xs : List A)
      → Perm xs (rest.0 ∷ rest.1)
      → Perm (x ∷ xs) ((choose_top b x rest xs).0 ∷ (choose_top b x rest xs).1)
  choose_top-perm true x rest xs p = Perm.trans (Perm.cons x p) (Perm.swap rest.0 x rest.1)
  choose_top-perm false x rest xs p = Perm.refl (x ∷ xs)

  -- A pop takes out one item, the top, and loses none.
  pub top_pop-perm : (x : A) (xs : List A) → Perm (x ∷ xs) ((top_pop x xs).0 ∷ (top_pop x xs).1)
  unfolding top_pop
  top_pop-perm x [] = Perm.refl (x ∷ [])
  top_pop-perm x (y ∷ ys) =
      choose_top-perm (less x (top_pop y ys).0) x (top_pop y ys) (y ∷ ys) (top_pop-perm y ys)

-- `class BtsQueue`, with the threads that are inside its calls.
pub record BtsQueue (A : Type 0) : Type 0 where
  pub items : List A
  pub asleep : ℕ  -- threads inside `m_cond.wait`
  pub woken : ℕ  -- threads that left the wait and want the mutex back
  pub pending : ℕ  -- threads of `Enqueue` between `unlock` and `notify_one`

module _ {A : Type 0} where
  unfoldable pub new_queue : BtsQueue A
  new_queue = record { items = []; asleep = 0; woken = 0; pending = 0 }

  -- `Enqueue` up to its `unlock`, and the rest of it.
  unfoldable pub push : A → BtsQueue A → BtsQueue A
  push a q = record q { items = a ∷ q.items; pending = q.pending + 1 }

  unfoldable pub notify_one : BtsQueue A → BtsQueue A
  notify_one q =
      if ltb 0 q.asleep
      then record q { asleep = q.asleep - 1; woken = q.woken + 1; pending = q.pending - 1 }
      else record q { pending = q.pending - 1 }

  -- `Clear`: it pops until the queue is empty.
  unfoldable pub clear : BtsQueue A → BtsQueue A
  clear q = record q { items = [] }

module _ {A : Type 0} (less : A → A → Bool) where
  -- The item that a thread with the mutex takes, if there is one, and the items left.
  unfoldable pub take_item : List A → Option (A × List A)
  unfolding top_pop
  take_item [] = none
  take_item (x ∷ xs) = some (top_pop less x xs)

  -- A call of `Dequeue` up to its return or its first sleep.
  unfoldable pub dequeue : BtsQueue A → BtsQueue A × Option A
  unfolding take_item
  dequeue q = elim (take_item q.items) [
    | none ↦ (record q { asleep = q.asleep + 1 }, none)
    | some taken ↦ (record q { items = taken.1 }, some taken.0)
  ]

  -- A woken thread tests again.
  unfoldable pub retry : BtsQueue A → BtsQueue A × Option A
  unfolding take_item
  retry q = elim (take_item q.items) [
    | none ↦ (record q { asleep = q.asleep + 1; woken = q.woken - 1 }, none)
    | some taken ↦ (record q { items = taken.1; woken = q.woken - 1 }, some taken.0)
  ]

  -- The steps of any number of threads. A wait may also end with no notification.
  pub data Step (q : BtsQueue A) : BtsQueue A → Type 0 where
    enqueues : (a : A) → Step q (push a q)
    notifies : 0 < q.pending → Step q (notify_one q)
    dequeues : Step q (dequeue q).0
    retries : 0 < q.woken → Step q (retry q).0
    spurious : 0 < q.asleep → Step q (record q { asleep = q.asleep - 1; woken = q.woken + 1 })
    clears : Step q (clear q)

  pub data Reach : BtsQueue A → Type 0 where
    start : Reach new_queue
    later : {q r : BtsQueue A} → Reach q → Step q r → Reach r

-- While threads sleep, every item has a woken thread that may take it or a notification on its way.
abbrev pub IsAwake : {A : Type 0} → BtsQueue A → Type 0
IsAwake q = 0 < q.asleep → length q.items ≤ q.woken + q.pending

module _ {A : Type 0} (less : A → A → Bool) where
  pub length-top_pop : (x : A) (xs : List A) → length (top_pop less x xs).1 ≡ length xs
  unfolding top_pop
  length-top_pop x [] = refl
  length-top_pop x (y ∷ ys) = ground (arith, length-top_pop y ys)

  -- What `take_item` gives for an empty queue and for any other.
  pub take_item-length :
      (items : List A)
      → ((items ≡ []) × (take_item less items ≡ none))
        ⊎ ((taken : A × List A) × (take_item less items ≡ some taken)
            × (length items ≡ length taken.1 + 1))
  unfolding take_item
  take_item-length [] = inl (refl, refl)
  take_item-length (x ∷ xs) = inr (top_pop less x xs, refl, omega (arith, length-top_pop x xs))

  Step-IsAwake : {q r : BtsQueue A} → Step less q r → IsAwake q → IsAwake r
  unfolding push notify_one clear dequeue retry
  Step-IsAwake (enqueues a) v h = omega (arith, v h)
  Step-IsAwake {q} (notifies some_pending) v h = ground (arith, v)
  Step-IsAwake {q} dequeues v h = ground (arith, take_item-length q.items, v)
  Step-IsAwake {q} (retries some_woken) v h = ground (arith, take_item-length q.items, v)
  Step-IsAwake (spurious some_asleep) v h = ground (arith, v)
  Step-IsAwake clears v h = omega arith

  -- No interleaving loses a wakeup: while a thread sleeps, the woken threads and the notifications on
  -- their way are at least as many as the items.
  pub Reach-IsAwake : {q : BtsQueue A} → Reach less q → IsAwake q
  unfolding new_queue
  Reach-IsAwake start h = omega arith
  Reach-IsAwake (later r st) h = Step-IsAwake st (Reach-IsAwake r) h

-- A comparison whose negation is a total order: what std::priority_queue asks for.
pub record IsWeakOrder {A : Type 0} (less : A → A → Bool) : Type 0 where
  pub asymmetric : (a b : A) → less a b ≡ true → less b a ≡ false
  pub transitive : (a b c : A) → less a b ≡ false → less b c ≡ false → less a c ≡ false

module _ {A : Type 0} (less : A → A → Bool) (order : IsWeakOrder less) where
  -- `t` is exceeded by no item of the list.
  abbrev pub IsTop : A → List A → Type 0
  IsTop t xs = All (λ z. less t z ≡ false) xs

  irreflexive : (a : A) (b : Bool) → less a a ≡ b → less a a ≡ false
  irreflexive a true e = order.asymmetric a a e
  irreflexive a false e = e

  choose_top-IsTop :
      (b : Bool) (x : A) (rest : A × List A) (xs : List A)
      → less x rest.0 ≡ b
      → IsTop rest.0 xs
      → IsTop (choose_top b x rest xs).0 (x ∷ xs)
  choose_top-IsTop true x rest xs e top = (order.asymmetric x rest.0 e, top)
  choose_top-IsTop false x rest xs e top =
      (irreflexive x (less x x) refl, All-map xs (λ z. order.transitive x rest.0 z e) top)

  -- `Dequeue` takes an item that no item of the queue exceeds.
  top_pop-IsTop : (x : A) (xs : List A) → IsTop (top_pop less x xs).0 (x ∷ xs)
  unfolding top_pop
  top_pop-IsTop x [] = (irreflexive x (less x x) refl, tt)
  top_pop-IsTop x (y ∷ ys) =
      choose_top-IsTop (less x (top_pop less y ys).0) x (top_pop less y ys) (y ∷ ys) refl
        (top_pop-IsTop y ys)
