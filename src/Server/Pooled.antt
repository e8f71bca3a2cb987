-- ===== src/Server/Pooled.antt =====
-- The jobs of all requests that the server reads, run by its thread pool.
use private_distributed_clou.Prelude.{
  ℕ, ◌+◌, ◌≤◌, ◌≡◌, refl, ap, sym, ◌∙◌, Bool, List, [], ◌∷◌, ◌++◌, map, arith, if◌then◌else◌,
}
use mathlib.Core.Path.{subst}
use private_distributed_clou.Run.{Run, done}
use private_distributed_clou.Nbd.{NbdAbi, NbdMessage}
use private_distributed_clou.BtsQueue.{All}
use private_distributed_clou.Command.{Sent, SendFails}
use private_distributed_clou.Host.{
  RequestHost, fragment_count, num_of_iterations, create_host, distribute,
}
use private_distributed_clou.Host.Placement.{IsServed, fragment_message}
use private_distributed_clou.Host.Coverage.{all_strides, covered}
use private_distributed_clou.Host.Counts.{tally-count, fragments_from, count-fragments_from}
use private_distributed_clou.Host.Pooled.{job_function, distribute-Appends}
use private_distributed_clou.Dispatcher.{command_factory}
use private_distributed_clou.ThreadPool.Tally.{
  tally, total, tally-append, All-append, All-any, All-weaken,
}
use private_distributed_clou.ThreadPool.Workers.{Pool, Reach, handed_in}
use private_distributed_clou.ThreadPool.Logs.{
  all_messages, all_messages-append, weight, Appends, Reach-IsLogged,
}

tally-map :
    {A B : Type 0} (q : B → Bool) (f : A → B) (xs : List A)
    → tally q (map f xs) ≡ tally (λ x. q (f x)) xs
tally-map q f [] = refl
tally-map q f (x ∷ xs) = ap (λ n. (if q (f x) then 1 else 0) + n) (tally-map q f xs)

module _ (abi : NbdAbi) (fails : SendFails) (socfd : ℕ → ℕ) where
  -- What `Distribute` gives to `Async` for requests, of which the first one has the number `uid`.
  unfoldable pub job_functions : ℕ → List NbdMessage → List (Run (List Sent) → ℕ × Run (List Sent))
  unfolding job_function
  job_functions uid [] = []
  job_functions uid (m ∷ ms) =
      let host = (create_host uid m).0 in
      map (job_function (command_factory abi) fails host) (distribute host socfd)
      ++ job_functions (uid + 1) ms

  -- The messages that these requests are due: one for each fragment.
  unfoldable pub due_messages : ℕ → List NbdMessage → List Sent
  due_messages uid [] = []
  due_messages uid (m ∷ ms) =
      map (fragment_message abi (create_host uid m).0 socfd)
        (fragments_from (fragment_count m.nbd_req) 0)
      ++ due_messages (uid + 1) ms

  strides-tally :
      (host : RequestHost) (q : Sent → Bool)
      → tally q (
          map
            (fragment_message abi host socfd)
            (all_strides (fragment_count host.nbq_req) (num_of_iterations host.nbq_req) 0))
        ≡ tally q
            (map (fragment_message abi host socfd) (fragments_from (fragment_count host.nbq_req) 0))
  strides-tally host q =
      let n = fragment_count host.nbq_req in
      let strides = all_strides n (num_of_iterations host.nbq_req) 0 in
      tally-map q (fragment_message abi host socfd) strides
      ∙ tally-count (λ k. q (fragment_message abi host socfd k)) strides (fragments_from n 0)
          (λ k. ground (arith, covered abi fails host socfd k, count-fragments_from k n 0))
      ∙ sym (tally-map q (fragment_message abi host socfd) (fragments_from n 0))

  job_functions-Appends :
      (uid : ℕ) (ms : List NbdMessage)
      → All (λ m. IsServed abi m.nbd_req) ms
      → ((q : Sent → Bool)
          → tally q (all_messages (job_functions uid ms)) ≡ tally q (due_messages uid ms))
        × All (Appends (λ _. Unit {0})) (job_functions uid ms)
  unfolding job_functions due_messages all_messages create_host
  job_functions-Appends uid [] served = ((λ q. refl), tt)
  job_functions-Appends uid (m ∷ ms) served =
      let host = (create_host uid m).0 in
      let jobs = map (job_function (command_factory abi) fails host) (distribute host socfd) in
      let (same, all) = distribute-Appends abi fails host socfd served.0 in
      let (others, more) = job_functions-Appends (uid + 1) ms served.1 in
      (
        (λ q. omega (
          arith,
          ap (tally q) (all_messages-append jobs (job_functions (uid + 1) ms)),
          tally-append q (all_messages jobs) (all_messages (job_functions (uid + 1) ms)),
          tally-append q
              (map (fragment_message abi host socfd) (fragments_from (fragment_count m.nbd_req) 0))
              (due_messages (uid + 1) ms),
          ap (tally q) same,
          strides-tally host q,
          others q,
        )),
        All-append _ jobs _ (All-weaken _ _ jobs (λ f h. (h.0, All-any _)) all) more,
      )

  -- Any number of workers, and clients that hand in the jobs of any requests, all reads and writes within the first
  -- 2 ^ 32 bytes, and nothing else but the tasks of `ShutDown`: in every state that any interleaving reaches,
  -- nothing has faulted, and no message was handed to `sendmsg` more often than the requests are due it, one for
  -- each fragment of each request. When no job is in the queue or with a worker, each was, as often.
  pub requests_pooled :
      {apple : ℕ → Bool} {num_of_threads : ℕ} {p : Pool (Run (List Sent))} (uid : ℕ)
      (ms : List NbdMessage)
      → All (λ m. IsServed abi m.nbd_req) ms
      → (r : Reach apple num_of_threads (done []) p) → handed_in r ≡ job_functions uid ms
      → (sent : List Sent) × (p.world ≡ done sent)
        × ((q : Sent → Bool) → tally q sent ≤ tally q (due_messages uid ms))
        × (p.queue.items ≡ []
            → p.running ≡ []
            → (q : Sent → Bool) → tally q sent ≡ tally q (due_messages uid ms))
  requests_pooled uid ms served r these =
      let (due, all) = job_functions-Appends uid ms served in
      let v =
        Reach-IsLogged (λ _. Unit {0}) tt r
          (subst (All (Appends (λ _. Unit {0}))) (sym these) all) in
      let handed = λ (q : Sent → Bool). ap (λ fs. tally q (all_messages fs)) these ∙ due q in
      (
        v.sent,
        v.world,
        (λ q. omega (arith, v.balance q, handed q)),
        λ no_items no_running q. omega (
          arith,
          v.balance q,
          handed q,
          ap (total (weight q)) no_items,
          ap (total (weight q)) no_running,
        ),
      )
