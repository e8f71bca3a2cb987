-- ===== src/Singleton.antt =====
-- final_project/framework/src/singleton/singleton.hpp: `Singleton<T>`, whose constructor is run by any number
-- of threads that interleave at each access to the shared variables, and whose `CleanUp` is run by `exit`.
-- The threads have no names: the state counts them by where they stand.
use private_distributed_clou.Prelude.{
  ℕ, ◌+◌, ◌-◌, ◌<◌, ◌≡◌, ◌⊎◌, inl, inr, refl, Bool, true, false, List, [], ◌∷◌, ◌==◌, if◌then◌else◌,
  arith,
}

-- A value of `m_instance`: null, the number of an object that `new T` made, or 0xdeadbeef.
pub data Instance : Type 0 where
  null : Instance
  object : ℕ → Instance
  dead_beef : Instance

pub record Singleton : Type 0 where
  pub instance_of : Instance  -- m_instance
  pub ctor_started : Bool
  pub created : ℕ  -- objects made so far
  pub saw_null : ℕ  -- threads between the first test and the test-and-set
  pub creating : ℕ  -- threads that won the test-and-set and have not stored the object
  pub registering : ℕ  -- threads that have stored the object and have not called `atexit`
  pub spinning : ℕ  -- threads in the `while` loop
  pub returned : ℕ  -- threads whose constructor has returned
  pub registered : ℕ  -- calls of `CleanUp` that `exit` is still to make
  pub clearing : ℕ  -- threads in `CleanUp`, between its two statements
  pub deleted : List Instance  -- what `delete` was called on

unfoldable pub no_instance : Singleton
no_instance = record {
  instance_of = null;
  ctor_started = false;
  created = 0;
  saw_null = 0;
  creating = 0;
  registering = 0;
  spinning = 0;
  returned = 0;
  registered = 0;
  clearing = 0;
  deleted = [];
}

-- `if(nullptr== m_instance)`.
unfoldable pub first_test : Singleton → Singleton
first_test s = elim s.instance_of [
  | null ↦ record s { saw_null = s.saw_null + 1 }
  | object _ ↦ record s { returned = s.returned + 1 }
  | dead_beef ↦ record s { returned = s.returned + 1 }
]

-- `if(!__atomic_test_and_set(&ctor_started, …))`.
unfoldable pub test_and_set : Singleton → Singleton
test_and_set s =
    if s.ctor_started
    then record s { saw_null = s.saw_null - 1; spinning = s.spinning + 1 }
    else record s { ctor_started = true; saw_null = s.saw_null - 1; creating = s.creating + 1 }

-- `__atomic_store_n(&m_instance, new T, …)`.
unfoldable pub store_instance : Singleton → Singleton
store_instance s = record s {
  instance_of = object s.created;
  created = s.created + 1;
  creating = s.creating - 1;
  registering = s.registering + 1;
}

-- `atexit(&Singleton::CleanUp)`.
unfoldable pub register_clean_up : Singleton → Singleton
register_clean_up s = record s {
  registering = s.registering - 1;
  registered = s.registered + 1;
  returned = s.returned + 1;
}

-- One test of the `while` loop.
unfoldable pub spin : Singleton → Singleton
spin s = elim s.instance_of [
  | null ↦ s
  | object _ ↦ record s { spinning = s.spinning - 1; returned = s.returned + 1 }
  | dead_beef ↦ record s { spinning = s.spinning - 1; returned = s.returned + 1 }
]

-- `CleanUp`: `delete m_instance`, and the assignment behind it.
unfoldable pub delete_instance : Singleton → Singleton
delete_instance s = record s {
  registered = s.registered - 1;
  clearing = s.clearing + 1;
  deleted = s.instance_of ∷ s.deleted;
}

unfoldable pub poison_instance : Singleton → Singleton
poison_instance s = record s { clearing = s.clearing - 1; instance_of = dead_beef }

-- `operator->`.
unfoldable pub arrow : Singleton → Instance
arrow s = s.instance_of

pub data Step (s : Singleton) : Singleton → Type 0 where
  enters : Step s (first_test s)
  tests : 0 < s.saw_null → Step s (test_and_set s)
  stores : 0 < s.creating → Step s (store_instance s)
  registers : 0 < s.registering → Step s (register_clean_up s)
  spins : 0 < s.spinning → Step s (spin s)
  deletes : 0 < s.registered → Step s (delete_instance s)
  poisons : 0 < s.clearing → Step s (poison_instance s)

pub data Reach : Singleton → Type 0 where
  start : Reach no_instance
  later : {s t : Singleton} → Reach s → Step s t → Reach t

-- Where the one object is on its way: not made; made, where `CleanUp` was not run; or deleted, once. No constructor
-- returns before it is made.
pub data Stage (s : Singleton) : Type 0 where
  not_made :
      s.created ≡ 0
      → arrow s ≡ null
      → s.registering + s.registered + s.clearing + s.returned ≡ 0
      → s.deleted ≡ []
      → Stage s
  made :
      s.created ≡ 1
      → arrow s ≡ object 0
      → s.registering + s.registered ≡ 1
      → s.clearing ≡ 0
      → s.deleted ≡ []
      → Stage s
  gone :
      s.created ≡ 1
      → arrow s ≡ (if s.clearing == 0 then dead_beef else object 0)
      → s.registering + s.registered ≡ 0
      → s.clearing < 2
      → s.deleted ≡ object 0 ∷ []
      → Stage s

-- One object at most is made, by the thread that won the test-and-set, and who spins, spins behind that thread.
pub record IsOnce (s : Singleton) : Type 0 where
  pub once : s.creating + s.created ≡ (if s.ctor_started then 1 else 0)
  pub behind : 0 < s.spinning → s.ctor_started ≡ true
  pub stage : Stage s

Step-Stage : {s t : Singleton} → Step s t → IsOnce s → Stage s → Stage t
unfolding first_test test_and_set store_instance register_clean_up spin delete_instance
    poison_instance arrow
Step-Stage enters v (not_made c i n d) =
    not_made (ground (arith, i, v.once)) (ground (arith, i, v.once)) (ground (arith, i, v.once))
      (ground (arith, i, v.once))
Step-Stage enters v (made c i r l d) =
    made (ground (arith, i, v.once)) (ground (arith, i, v.once)) (ground (arith, i, v.once))
      (ground (arith, i, v.once)) (ground (arith, i, v.once))
Step-Stage enters v (gone c i r l d) =
    gone (ground (arith, i, v.once)) (ground (arith, i, v.once)) (ground (arith, i, v.once))
      (ground (arith, i, v.once)) (ground (arith, i, v.once))
Step-Stage (tests h) v (not_made c i n d) =
    not_made (ground (arith, i, v.once)) (ground (arith, i, v.once)) (ground (arith, i, v.once))
      (ground (arith, i, v.once))
Step-Stage (tests h) v (made c i r l d) =
    made (ground (arith, i, v.once)) (ground (arith, i, v.once)) (ground (arith, i, v.once))
      (ground (arith, i, v.once)) (ground (arith, i, v.once))
Step-Stage (tests h) v (gone c i r l d) =
    gone (ground (arith, i, v.once)) (ground (arith, i, v.once)) (ground (arith, i, v.once))
      (ground (arith, i, v.once)) (ground (arith, i, v.once))
Step-Stage (stores h) v (not_made c i n d) =
    made (ground (arith, i, v.once)) (ground (arith, i, v.once)) (ground (arith, i, v.once))
      (ground (arith, i, v.once)) (ground (arith, i, v.once))
Step-Stage (stores h) v (made c i r l d) = absurd (ground (arith, v.once))
Step-Stage (stores h) v (gone c i r l d) = absurd (ground (arith, v.once))
Step-Stage (registers h) v (not_made c i n d) = absurd (omega (arith, n, h))
Step-Stage (registers h) v (made c i r l d) =
    made (ground (arith, i, v.once)) (ground (arith, i, v.once)) (ground (arith, i, v.once))
      (ground (arith, i, v.once)) (ground (arith, i, v.once))
Step-Stage (registers h) v (gone c i r l d) = absurd (omega (arith, r, h))
Step-Stage (spins h) v (not_made c i n d) =
    not_made (ground (arith, i, v.once)) (ground (arith, i, v.once)) (ground (arith, i, v.once))
      (ground (arith, i, v.once))
Step-Stage (spins h) v (made c i r l d) =
    made (ground (arith, i, v.once)) (ground (arith, i, v.once)) (ground (arith, i, v.once))
      (ground (arith, i, v.once)) (ground (arith, i, v.once))
Step-Stage (spins h) v (gone c i r l d) =
    gone (ground (arith, i, v.once)) (ground (arith, i, v.once)) (ground (arith, i, v.once))
      (ground (arith, i, v.once)) (ground (arith, i, v.once))
Step-Stage (deletes h) v (not_made c i n d) = absurd (omega (arith, n, h))
Step-Stage (deletes h) v (made c i r l d) =
    gone (ground (arith, i, v.once)) (ground (arith, i, v.once)) (ground (arith, i, v.once))
      (ground (arith, i, v.once)) (ground (arith, i, v.once))
Step-Stage (deletes h) v (gone c i r l d) = absurd (omega (arith, r, h))
Step-Stage (poisons h) v (not_made c i n d) = absurd (omega (arith, n, h))
Step-Stage (poisons h) v (made c i r l d) = absurd (omega (arith, l, h))
Step-Stage (poisons h) v (gone c i r l d) =
    gone (ground (arith, i, v.once)) (ground (arith, i, v.once)) (ground (arith, i, v.once))
      (ground (arith, i, v.once)) (ground (arith, i, v.once))

Step-IsOnce : {s t : Singleton} → Step s t → IsOnce s → IsOnce t
unfolding first_test test_and_set store_instance register_clean_up spin delete_instance
    poison_instance
Step-IsOnce enters v = record {
  once = ground (arith, v.once);
  behind = ground (arith, v.behind);
  stage = Step-Stage enters v v.stage;
}
Step-IsOnce (tests h) v = record {
  once = ground (arith, v.once);
  behind = ground (arith, v.behind);
  stage = Step-Stage (tests h) v v.stage;
}
Step-IsOnce (stores h) v = record {
  once = ground (arith, v.once);
  behind = v.behind;
  stage = Step-Stage (stores h) v v.stage;
}
Step-IsOnce (registers h) v = record {
  once = v.once;
  behind = v.behind;
  stage = Step-Stage (registers h) v v.stage;
}
Step-IsOnce (spins h) v = record {
  once = ground (arith, v.once);
  behind = ground (arith, v.behind);
  stage = Step-Stage (spins h) v v.stage;
}
Step-IsOnce (deletes h) v = record {
  once = v.once;
  behind = v.behind;
  stage = Step-Stage (deletes h) v v.stage;
}
Step-IsOnce (poisons h) v = record {
  once = v.once;
  behind = v.behind;
  stage = Step-Stage (poisons h) v v.stage;
}

-- In every state that any interleaving of constructors and of `CleanUp` reaches, at most one object was made,
-- by a thread that has won the test-and-set. Until it is made, `operator->` gives null and no constructor
-- has returned; from then on it gives the object, and one call of `CleanUp` is to come, until that call
-- deletes it, which happens at most once, and leaves 0xdeadbeef behind.
pub Reach-IsOnce : {s : Singleton} → Reach s → IsOnce s
unfolding no_instance arrow
Reach-IsOnce start = record {
  once = refl;
  behind = ground arith;
  stage = not_made refl refl refl refl;
}
Reach-IsOnce (later r st) = Step-IsOnce st (Reach-IsOnce r)

-- A constructor that spins does not spin for ever: the object is there, or was, so that its next test returns, or
-- a thread is about to store it, and after that store the next test returns.
pub spinning_ends :
    {s : Singleton}
    → Reach s
    → 0 < s.spinning
    → ((spin s).returned ≡ s.returned + 1)
      ⊎ ((0 < s.creating) × ((spin (store_instance s)).returned ≡ s.returned + 1))
unfolding spin store_instance arrow
spinning_ends {s} r some_there = by_stage (Reach-IsOnce r) (Reach-IsOnce r).stage
  where
    by_stage :
        IsOnce s
        → Stage s
        → ((spin s).returned ≡ s.returned + 1)
          ⊎ ((0 < s.creating) × ((spin (store_instance s)).returned ≡ s.returned + 1))
    by_stage v (not_made c i n d) = inr (ground (arith, v), refl)
    by_stage v (made c i r l d) = inl (ground (arith, i))
    by_stage v (gone c i r l d) = inl (ground (arith, i))
