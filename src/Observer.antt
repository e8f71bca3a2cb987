-- ===== src/Observer.antt =====
-- final_project/concrete/src/observer/observer.hpp: dispatchers and callbacks that point to one another. A
-- dispatcher and a callback are named by their addresses.
use private_distributed_clou.Prelude.{
  ℕ, ◌≡◌, ◌≢◌, ◌↔◌, refl, true, false, Option, none, some, List, [], ◌∷◌, ◌==◌, if◌then◌else◌,
  arith,
}
use private_distributed_clou.Run.{Run, done, fault, ◌>>=◌}
use private_distributed_clou.IntSet
use private_distributed_clou.Function.{ArgFunction, invoke_with}

-- The fields `m_subscribers` of all dispatchers, a `std::set` of addresses each, and `m_dispatcher` of all
-- callbacks, with `none` for the null pointer and for the unset pointer of a new callback.
pub record Links : Type 0 where
  pub subscribers : ℕ → List ℕ
  pub dispatcher_of : ℕ → Option ℕ

abbrev set_at : {A : Type 0} → (ℕ → A) → ℕ → A → ℕ → A
set_at f i v j = if i == j then v else f j

-- `BindDispatcher(dispatcher)` and `DisConnect()`.
unfoldable pub bind_dispatcher : ℕ → ℕ → Links → Links
bind_dispatcher c d s = record s { dispatcher_of = set_at s.dispatcher_of c (some d) }

unfoldable pub disconnect : ℕ → Links → Links
disconnect c s = record s { dispatcher_of = set_at s.dispatcher_of c none }

-- `Dispatcher::Add(callback)` and `Dispatcher::Remove(callback)`.
unfoldable pub add : ℕ → ℕ → Links → Links
unfolding bind_dispatcher
add d c s =
    bind_dispatcher c d
      (record s { subscribers = set_at s.subscribers d (IntSet.insert c (s.subscribers d)) })

unfoldable pub remove : ℕ → ℕ → Links → Links
unfolding disconnect
remove d c s =
    disconnect c
      (record s { subscribers = set_at s.subscribers d (IntSet.erase c (s.subscribers d)) })

-- The loop of `~Dispatcher()`.
unfoldable pub disconnect_all : List ℕ → Links → Links
unfolding disconnect
disconnect_all [] s = s
disconnect_all (c ∷ cs) s = disconnect_all cs (disconnect c s)

-- `~Dispatcher()`.
unfoldable pub destroy_dispatcher : ℕ → Links → Links
unfolding disconnect_all
destroy_dispatcher d s = disconnect_all (s.subscribers d) s

-- `~Callback()`: it calls `Remove` through `m_dispatcher`, also when this is null.
unfoldable pub destroy_callback : ℕ → Links → Run Links
unfolding remove
destroy_callback c s = elim (s.dispatcher_of c) [ none ↦ fault | some d ↦ done (remove d c s) ]

-- `Notify(event)`: the functions of the subscribers, in the order of the set.
unfoldable pub notify_each :
    {W Object Event Ret : Type 0}
    → (ℕ → ArgFunction W Object Event Ret)
    → List ℕ
    → Event
    → W
    → Run W
notify_each function_of [] event w = done w
notify_each function_of (c ∷ cs) event w =
    invoke_with (function_of c) event w >>= λ r. notify_each function_of cs event r.1

unfoldable pub notify :
    {W Object Event Ret : Type 0}
    → (ℕ → ArgFunction W Object Event Ret)
    → ℕ
    → Links
    → Event
    → W
    → Run W
unfolding notify_each
notify function_of d s event w = notify_each function_of (s.subscribers d) event w

-- A callback is in the set of a dispatcher exactly if it points to this dispatcher.
abbrev pub IsLinked : Links → Type 0
IsLinked s = (d c : ℕ) → (IntSet.contains c (s.subscribers d) ≡ true) ↔ (s.dispatcher_of c ≡ some d)

-- A callback that points to no dispatcher can be added to one: the two sides stay linked.
pub add-IsLinked :
    (d c : ℕ) (s : Links) → s.dispatcher_of c ≡ none → IsLinked s → IsLinked (add d c s)
unfolding add
add-IsLinked d c s free v e b = (
  ground (arith, v e b, IntSet.contains-insert b c (s.subscribers d), v d b),
  ground (arith, v e b, IntSet.contains-insert b c (s.subscribers d), v d b),
)

-- A callback that is destroyed while it points to a dispatcher leaves its set: the two sides stay linked,
-- no set has the callback any more, and every other subscription is as before.
pub destroy_callback-IsLinked :
    (d c : ℕ) (s : Links)
    → s.dispatcher_of c ≡ some d
    → IsLinked s
    → (after : Links) × (destroy_callback c s ≡ done after)
      × IsLinked after
      × ((e b : ℕ)
          → IntSet.contains b (after.subscribers e)
            ≡ (if c == b then false else IntSet.contains b (s.subscribers e)))
unfolding destroy_callback remove
destroy_callback-IsLinked d c s bound v = (
  remove d c s,
  ground arith,
  (λ e b. (
    ground (arith, v e b, IntSet.contains-erase b c (s.subscribers d), v d b, v e c),
    ground (arith, v e b, IntSet.contains-erase b c (s.subscribers d), v d b, v e c),
  )),
  λ e b. ground (arith, IntSet.contains-erase b c (s.subscribers d), v e c, v e b, v d b),
)

-- A callback that outlives its dispatcher, or was never added to one, is destroyed through a null pointer.
pub destroy_callback_unbound :
    (c : ℕ) (s : Links) → s.dispatcher_of c ≡ none → destroy_callback c s ≡ fault
unfolding destroy_callback
destroy_callback_unbound c s e = ground arith

dispatcher_of-disconnect_all :
    (cs : List ℕ) (s : Links) (c : ℕ)
    → (disconnect_all cs s).dispatcher_of c
      ≡ (if IntSet.contains c cs then none else s.dispatcher_of c)
unfolding disconnect_all disconnect IntSet.contains
dispatcher_of-disconnect_all [] s c = refl
dispatcher_of-disconnect_all (b ∷ cs) s c =
    ground (arith, dispatcher_of-disconnect_all cs (disconnect b s) c)

-- When a dispatcher is destroyed, on two sides that are linked, no callback points to it any more, and
-- every callback that points to another dispatcher points there still.
pub destroy_dispatcher_lem :
    (d c : ℕ) (s : Links)
    → IsLinked s
    → ((destroy_dispatcher d s).dispatcher_of c ≢ some d)
      × ((e : ℕ)
          → d ≢ e
          → ((destroy_dispatcher d s).dispatcher_of c ≡ some e) ↔ (s.dispatcher_of c ≡ some e))
unfolding destroy_dispatcher
destroy_dispatcher_lem d c s v = (
  λ h. ground (arith, dispatcher_of-disconnect_all (s.subscribers d) s c, v d c),
  λ e other. ground (arith, dispatcher_of-disconnect_all (s.subscribers d) s c, v d c),
)
