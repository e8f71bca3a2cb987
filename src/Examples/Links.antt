-- ===== src/Examples/Links.antt =====
-- Dispatchers with their callbacks.
use private_distributed_clou.Prelude.{
  ℕ, ◌≡◌, ◌≢◌, ◌↔◌, refl, false, none, some, [], ◌==◌, if◌then◌else◌, arith,
}
use private_distributed_clou.Run.{done}
use private_distributed_clou.IntSet
use private_distributed_clou.Observer.{
  Links, IsLinked, destroy_callback, add-IsLinked, destroy_callback-IsLinked,
  destroy_callback_unbound, destroy_dispatcher_lem,
}
use private_distributed_clou.Observer

abbrev unlinked : Links
unlinked = record { subscribers = λ d. []; dispatcher_of = λ c. none }

unlinked-IsLinked : IsLinked unlinked
unfolding IntSet.contains
unlinked-IsLinked d c = (λ e. ground arith, λ e. ground arith)

-- The dispatcher 1 has the callbacks 50 and 60.
abbrev two_callbacks : Links
two_callbacks = Observer.add 1 60 (Observer.add 1 50 unlinked)

sixty_free : (Observer.add 1 50 unlinked).dispatcher_of 60 ≡ none
unfolding Observer.add Observer.bind_dispatcher
sixty_free = refl

sixty_bound : two_callbacks.dispatcher_of 60 ≡ some 1
unfolding Observer.add Observer.bind_dispatcher
sixty_bound = refl

two_callbacks-IsLinked : IsLinked two_callbacks
two_callbacks-IsLinked =
    add-IsLinked 1 60 (Observer.add 1 50 unlinked) sixty_free
      (add-IsLinked 1 50 unlinked refl unlinked-IsLinked)

destroy_callback-IsLinked_example :
    (after : Links) × (destroy_callback 60 two_callbacks ≡ done after)
    × IsLinked after
    × ((e b : ℕ)
        → IntSet.contains b (after.subscribers e)
          ≡ (if 60 == b then false else IntSet.contains b (two_callbacks.subscribers e)))
destroy_callback-IsLinked_example =
    destroy_callback-IsLinked 1 60 two_callbacks sixty_bound two_callbacks-IsLinked

destroy_dispatcher_lem_example :
    ((Observer.destroy_dispatcher 1 two_callbacks).dispatcher_of 60 ≢ some 1)
    × ((e : ℕ)
        → 1 ≢ e
        → ((Observer.destroy_dispatcher 1 two_callbacks).dispatcher_of 60 ≡ some e)
          ↔ (two_callbacks.dispatcher_of 60 ≡ some e))
destroy_dispatcher_lem_example = destroy_dispatcher_lem 1 60 two_callbacks two_callbacks-IsLinked
