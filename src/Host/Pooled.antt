-- ===== src/Host/Pooled.antt =====
-- The jobs of Distribute in the thread pool, with any number of workers and in any interleaving.
use private_distributed_clou.Prelude.{
  ℕ, zero, suc, ◌+◌, ◌-◌, ◌/◌, ◌≤◌, ◌≡◌, refl, ap, sym, ◌∙◌, Bool, List, [], ◌∷◌, ◌++◌, map, ltb,
  if◌then◌else◌, ◌==◌, u32, arith, count,
}
use mathlib.Core.List.{map-append}
use mathlib.Core.Path.{subst}
use private_distributed_clou.Run.{Run, done, fault, running, ◌>>=◌}
use private_distributed_clou.Factory.{Factory}
use private_distributed_clou.Nbd.{NbdAbi}
use private_distributed_clou.BtsQueue.{All}
use private_distributed_clou.Command.{
  SendMsgInfo, Sent, Piece, header_bytes, data_bytes, Command, SendFails,
}
use private_distributed_clou.Host.{
  RequestHost, frag_size, fragment_count, job_info, distribute_loop, num_of_iterations, distribute,
  send_msg_wrapper,
}
use private_distributed_clou.Host.Placement.{
  IsServed, first_fragment, fragment_message, stride, send_msg_wrapper_lem,
}
use private_distributed_clou.Host.Coverage.{all_strides, num_of_iterations-le, covered}
use private_distributed_clou.Dispatcher.{command_factory}
use private_distributed_clou.ThreadPool.Tally.{tally, total}
use private_distributed_clou.ThreadPool.Workers.{Pool, Reach, handed_in}
use private_distributed_clou.ThreadPool.Logs.{
  messages_of, all_messages, weight, Appends, Reach-IsLogged,
}

-- The `Function` that `Distribute` hands to `Async`: `SendMsgWrapper` of the host on the information of a job. The
-- world is the list of the messages that were handed to `sendmsg`.
unfoldable pub job_function :
    Factory Command ℕ SendMsgInfo
    → SendFails
    → RequestHost
    → SendMsgInfo
    → Run (List Sent)
    → ℕ × Run (List Sent)
unfolding send_msg_wrapper
job_function fac fails host info w = (
  elim (send_msg_wrapper fac fails host info) [ done r ↦ r.1 | fault ↦ 0 | running ↦ 0 ],
  w >>= λ sent. send_msg_wrapper fac fails host info >>= λ r. done (sent ++ r.0),
)

-- The number in the header of a message.
abbrev piece_fragment : Piece → ℕ
piece_fragment (header_bytes h) = h.fragment_uid
piece_fragment (data_bytes bs) = 0

abbrev pub fragment_of : Sent → ℕ
fragment_of m = elim m.pieces [ [] ↦ 0 | p ∷ ps ↦ piece_fragment p ]

module _ (abi : NbdAbi) (fails : SendFails) (host : RequestHost) (socket : ℕ → ℕ) where
  -- A message is the one that its fragment is due.
  abbrev IsDue : Sent → Type 0
  IsDue m = m ≡ fragment_message abi host socket (fragment_of m)

  due : (ks : List ℕ) → All IsDue (map (fragment_message abi host socket) ks)
  due [] = tt
  due (k ∷ ks) = (refl, due ks)

  -- Messages that are due are those of their fragments.
  all_due :
      (ms : List Sent)
      → All IsDue ms
      → ms ≡ map (fragment_message abi host socket) (map fragment_of ms)
  all_due [] h = refl
  all_due (m ∷ ms) h =
      ap (λ x. x ∷ ms) h.0
      ∙ ap (◌∷◌ (fragment_message abi host socket (fragment_of m))) (all_due ms h.1)

  tally-fragment_of :
      (k : ℕ) (ms : List Sent) → count k (map fragment_of ms) ≡ tally (λ m. fragment_of m == k) ms
  unfolding count
  tally-fragment_of k [] = refl
  tally-fragment_of k (m ∷ ms) =
      ap (λ n. (if fragment_of m == k then 1 else 0) + n) (tally-fragment_of k ms)

  tally-messages :
      (k : ℕ) (ks : List ℕ)
      → tally (λ m. fragment_of m == k) (map (fragment_message abi host socket) ks) ≡ count k ks
  unfolding count
  tally-messages k [] = refl
  tally-messages k (j ∷ ks) = ap (λ n. (if j == k then 1 else 0) + n) (tally-messages k ks)

  abbrev job : SendMsgInfo → Run (List Sent) → ℕ × Run (List Sent)
  job = job_function (command_factory abi) fails host

  job-Appends :
      (info : SendMsgInfo) (ks : List ℕ)
      → send_msg_wrapper (command_factory abi) fails host info
        ≡ done (map (fragment_message abi host socket) ks, 0)
      → (messages_of (job info) ≡ map (fragment_message abi host socket) ks)
        × Appends IsDue (job info)
  unfolding job_function
  job-Appends info ks e =
      let added = λ (sent : List Sent). ap (λ r. r >>= λ x. done (sent ++ x.0)) e in
      let own : messages_of (job info) ≡ map (fragment_message abi host socket) ks =
        ap result (added []) in
      (
        own,
        (
          (λ sent. added sent ∙ ap (λ ms. done (sent ++ ms)) (sym own)),
          subst (All IsDue) (sym own) (due ks),
        ),
      )
    where
      result : Run (List Sent) → List Sent
      result r = elim r [ done ms ↦ ms | fault ↦ [] | running ↦ [] ]

  jobs-Appends :
      (rounds j : ℕ)
      → IsServed abi host.nbq_req
      → j + rounds ≤ fragment_count host.nbq_req
      → (all_messages (map job (distribute_loop host socket rounds j (first_fragment host + j)))
          ≡ map
              (fragment_message abi host socket)
              (all_strides (fragment_count host.nbq_req) rounds j))
        × All
            (Appends IsDue)
            (map job (distribute_loop host socket rounds j (first_fragment host + j)))
  unfolding distribute_loop all_messages
  jobs-Appends zero j served h = (refl, tt)
  jobs-Appends (suc rounds) j served h =
      let next : u32 (first_fragment host + j + 1) ≡ first_fragment host + (j + 1) =
        omega (arith, served.small) in
      let (own, appends) =
        job-Appends (job_info host socket j (first_fragment host + j))
          (stride ((fragment_count host.nbq_req + 7 - j) / 8) j)
          (send_msg_wrapper_lem abi fails host socket j (omega arith) served) in
      let (others, all) = jobs-Appends rounds (j + 1) served (omega arith) in
      (rw (own, next, others, map-append) refl, (appends, rw next all))

  -- All jobs of `Distribute` return, and hand over the messages of the fragments of all strides.
  pub distribute-Appends :
      IsServed abi host.nbq_req
      → (all_messages (map job (distribute host socket))
          ≡ map
              (fragment_message abi host socket)
              (all_strides (fragment_count host.nbq_req) (num_of_iterations host.nbq_req) 0))
        × All (Appends IsDue) (map job (distribute host socket))
  unfolding distribute
  distribute-Appends served =
      let start : u32 (host.nbq_req.offset / frag_size) ≡ first_fragment host + 0 =
        omega (arith, served.small) in
      rw start (
        jobs-Appends (num_of_iterations host.nbq_req) 0 served
          (num_of_iterations-le abi fails host socket host.nbq_req).0)

  -- Any number of workers, and clients that hand in the jobs of `Distribute` of one request, and nothing else but the
  -- tasks of `ShutDown`: in every state that any interleaving reaches, nothing has faulted, and the messages handed to
  -- `sendmsg` are those of some fragments of the request, each at most once. When no job is in the queue or
  -- with a worker, they are those of all fragments, each once.
  pub distribute_pooled :
      {apple : ℕ → Bool} {num_of_threads : ℕ} {p : Pool (Run (List Sent))}
      → IsServed abi host.nbq_req
      → (r : Reach apple num_of_threads (done []) p)
      → handed_in r ≡ map job (distribute host socket)
      → (ks : List ℕ) × (p.world ≡ done (map (fragment_message abi host socket) ks))
        × ((k : ℕ) → count k ks ≤ (if ltb k (fragment_count host.nbq_req) then 1 else 0))
        × (p.queue.items ≡ []
            → p.running ≡ []
            → (k : ℕ) → count k ks ≡ (if ltb k (fragment_count host.nbq_req) then 1 else 0))
  distribute_pooled {p = p} served r these =
      let (messages, all) = distribute-Appends served in
      let v = Reach-IsLogged IsDue tt r (subst (All (Appends IsDue)) (sym these) all) in
      let counted = λ (k : ℕ).
        ap (λ fs. tally (λ m. fragment_of m == k) (all_messages fs)) these
        ∙ ap (tally (λ m. fragment_of m == k)) messages
        ∙ tally-messages k
            (all_strides (fragment_count host.nbq_req) (num_of_iterations host.nbq_req) 0)
        ∙ covered abi fails host socket k in
      (
        map fragment_of v.sent,
        v.world ∙ ap done (all_due v.sent v.only),
        (λ k.
            omega
              (arith, counted k, v.balance (λ m. fragment_of m == k), tally-fragment_of k v.sent)),
        λ no_items no_running k. omega (
          arith,
          counted k,
          v.balance (λ m. fragment_of m == k),
          tally-fragment_of k v.sent,
          ap (total (weight (λ m. fragment_of m == k))) no_items,
          ap (total (weight (λ m. fragment_of m == k))) no_running,
        ),
      )
