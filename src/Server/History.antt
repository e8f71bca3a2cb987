-- ===== src/Server/History.antt =====
-- The event loop of the server of the eight devices as a history of its dispatcher.
use private_distributed_clou.Prelude.{
  ℕ, suc, ◌+◌, ◌<◌, ◌^◌, ◌≡◌, refl, ap, sym, ◌∙◌, Bool, true, false, List, [], ◌∷◌, ◌++◌, length,
  length-append, arith, ◌==◌, if◌then◌else◌,
}
use mathlib.Core.List.{append_assoc, append-nil}
use mathlib.Core.Path.{subst}
use private_distributed_clou.Run.{done, fault, ◌>>=◌, >>=-eq-done, done_injective}
use private_distributed_clou.Net.{Kernel}
use private_distributed_clou.Nbd.{NbdAbi, NbdMessage}
use private_distributed_clou.Command.{SendMsgInfo}
use private_distributed_clou.Host.{create_host, distribute}
use private_distributed_clou.Host.Reply.{load_header}
use private_distributed_clou.Dispatcher.{
  RequestDispatcher, new_dispatcher, admit, nbd_requests_handle, iot_handle,
}
use private_distributed_clou.Dispatcher.Table.{iot_handle-Handled}
use private_distributed_clou.Dispatcher.Serving
use private_distributed_clou.Dispatcher.Serving.{Serving, IsHistory, asks, answers, passes}
use private_distributed_clou.Dispatcher.Admitted.{admitted, request_read}
use private_distributed_clou.Dispatcher.History.{reply_head-Handled, Reach-IsHistory}
use private_distributed_clou.Select.{FdSet, SelectCall}
use private_distributed_clou.Reactor.{Reactor, run_rounds}
use private_distributed_clou.Reactor.Kept.{SelectKeeps, HandlersKeep, run_rounds-keeps}
use private_distributed_clou.Server.{World, Object, SocketArg, server_reactor}
use private_distributed_clou.Server.Handlers.{among, serve_fd, call_server_handler}

-- The jobs of requests, of which the first one has the number `uid`.
unfoldable pub jobs_from : (ℕ → ℕ) → ℕ → List NbdMessage → List SendMsgInfo
jobs_from socfd uid [] = []
jobs_from socfd uid (m ∷ ms) =
    distribute (create_host uid m).0 socfd ++ jobs_from socfd (uid + 1) ms

jobs_from-snoc :
    (socfd : ℕ → ℕ) (uid : ℕ) (ms : List NbdMessage) (m : NbdMessage)
    → jobs_from socfd uid (ms ++ (m ∷ []))
      ≡ jobs_from socfd uid ms ++ distribute (create_host (uid + length ms) m).0 socfd
unfolding jobs_from
jobs_from-snoc socfd uid [] m =
    let same : uid ≡ uid + 0 = omega arith in
    append-nil _ ∙ ap (λ n. distribute (create_host n m).0 socfd) same
jobs_from-snoc socfd uid (x ∷ ms) m =
    let same : uid + 1 + length ms ≡ uid + suc (length ms) = omega arith in
    ap (◌++◌ (distribute (create_host uid x).0 socfd)) (
      jobs_from-snoc socfd (uid + 1) ms m
      ∙ ap (λ n. jobs_from socfd (uid + 1) ms ++ distribute (create_host n m).0 socfd) same)
    ∙ sym (append_assoc (distribute (create_host uid x).0 socfd) (jobs_from socfd (uid + 1) ms) _)

module _ (abi : NbdAbi) (k : Kernel) (malloced : ℕ → List ℕ) (socfd : ℕ → ℕ) (io : k.World) where
  -- The world of the event loop is that of a history of its dispatcher, and the jobs are those of its requests.
  pub record IsServed (w : World k) : Type 0 where
    pub history : Serving k
    pub reached : Serving.Reach abi k malloced io history
    pub table : history.dispatcher ≡ w.disp
    pub kernel : history.io ≡ w.io
    pub started : length history.asked < 2 ^ 32 → w.jobs ≡ jobs_from socfd 0 history.asked

  answer-IsServed :
      (fd : ℕ) (w : World k) (r : RequestDispatcher × k.World)
      → iot_handle abi k w.disp fd w.io ≡ done r
      → IsServed w
      → IsServed (record { disp = r.0; jobs = w.jobs; io = r.1 })
  answer-IsServed fd w r ran v =
      let s = v.history in
      let there : iot_handle abi k s.dispatcher fd s.io ≡ done r =
        (λ i. iot_handle abi k (v.table i) fd (v.kernel i)) ∙ ran in
      let h = iot_handle-Handled abi k s.dispatcher r.0 fd s.io r.1 there in
      record {
        history = record s {
          dispatcher = r.0;
          replied = (h.uid, (load_header h.read.head.0).fragment_uid) ∷ s.replied;
          io = r.1;
        };
        reached = Serving.later v.reached (
            answers fd h.uid (load_header h.read.head.0).fragment_uid r.1 r.0
              (reply_head-Handled abi k fd s.io r.1 s.dispatcher r.0 h) there);
        table = refl;
        kernel = refl;
        started = v.started;
      }

  request-IsServed :
      (w : World k) (r : RequestDispatcher × List SendMsgInfo × k.World)
      → nbd_requests_handle abi k malloced w.disp socfd w.io ≡ done r
      → IsServed w
      → IsServed (record { disp = r.0; jobs = w.jobs ++ r.1; io = r.2 })
  unfolding admit
  request-IsServed w r ran v =
      let s = v.history in
      let there : nbd_requests_handle abi k malloced s.dispatcher socfd s.io ≡ done r =
        (λ i. nbd_requests_handle abi k malloced (v.table i) socfd (v.kernel i)) ∙ ran in
      let (m, w1, got) = request_read abi k malloced s.dispatcher socfd s.io there in
      record {
        history = record s { dispatcher = r.0; asked = s.asked ++ (m ∷ []); io = r.2 };
        reached = Serving.later v.reached (asks socfd m w1 r.2 r.0 r.1 got there);
        table = refl;
        kernel = refl;
        started = λ few.
            let before : length s.asked < 2 ^ 32 =
              omega (arith, few, length-append s.asked (m ∷ [])) in
            let known = Reach-IsHistory abi k malloced v.reached before in
            let next : s.dispatcher.next_uid ≡ 0 + length s.asked = omega (arith, known.counter) in
            let jobs =
              (admitted abi k malloced s.dispatcher r.0 socfd s.io w1 r.2 m r.1 got there).1 in
            ap (λ js. js ++ r.1) (v.started before)
            ∙ ap (◌++◌ (jobs_from socfd 0 s.asked)) (sym jobs)
            ∙ ap (λ n. jobs_from socfd 0 s.asked ++ distribute (create_host n m).0 socfd) next
            ∙ sym (jobs_from-snoc socfd 0 s.asked m);
      }

  handlers-IsServed : HandlersKeep IsServed (server_reactor abi k malloced socfd)
  unfolding serve_fd
  handlers-IsServed fd v v' e here =
      by_place (among socfd fd 8 1) (socfd 0 == fd)
        (sym (call_server_handler abi k malloced socfd fd v) ∙ e)
    where
      by_place :
          (device block : Bool)
          → (if device
              then (iot_handle abi k v.disp fd v.io >>= λ r.
                  done (record { disp = r.0; jobs = v.jobs; io = r.1 }))
              else if block
              then (nbd_requests_handle abi k malloced v.disp socfd v.io >>= λ r.
                  done (record { disp = r.0; jobs = v.jobs ++ r.1; io = r.2 }))
              else fault)
            ≡ done v'
          → IsServed v'
      by_place true block e' =
          let (r, ran, same) = >>=-eq-done (iot_handle abi k v.disp fd v.io) _ e' in
          subst IsServed (done_injective same) (answer-IsServed fd v r ran here)
      by_place false true e' =
          let (r, ran, same) =
            >>=-eq-done (nbd_requests_handle abi k malloced v.disp socfd v.io) _ e' in
          subst IsServed (done_injective same) (request-IsServed v r ran here)
      by_place false false e' = cc

  -- `select` moves the kernel alone.
  abbrev pub MovesKernel : SelectCall (World k) → Type 0
  MovesKernel select =
      (nfds : ℕ) (s : FdSet) (v : World k)
      → ((select nfds s v).2.disp ≡ v.disp) × ((select nfds s v).2.jobs ≡ v.jobs)

  select-IsServed :
      (select : SelectCall (World k)) → MovesKernel select → SelectKeeps IsServed select
  select-IsServed select moves nfds s w v = record {
    history = record (v.history) { io = (select nfds s w).2.io };
    reached = Serving.later v.reached (passes (select nfds s w).2.io);
    table = v.table ∙ sym (moves nfds s w).0;
    kernel = refl;
    started = λ few. (moves nfds s w).1 ∙ v.started few;
  }

  -- After any number of rounds of the event loop of the server, from an empty table, whatever `select` returns: what
  -- the handlers have done is a history of the dispatcher, its table is the one of the server, and, with
  -- less than 2 ^ 32 requests so far, the jobs that the thread pool was given are those of the requests that were
  -- read, in order, and every entry of the table waits for the fragments that have got no reply.
  pub server_reactor-IsHistory :
      (n : ℕ) (select : SelectCall (World k)) {after : Reactor (World k) Object SocketArg}
      {w : World k}
      → MovesKernel select
      → run_rounds n select
          (server_reactor abi k malloced socfd)
          (record { disp = new_dispatcher; jobs = []; io = io })
        ≡ done (after, w)
      → (s : Serving k) × Serving.Reach abi k malloced io s
        × (s.dispatcher ≡ w.disp)
        × (length s.asked < 2 ^ 32 → (w.jobs ≡ jobs_from socfd 0 s.asked) × IsHistory s)
  unfolding jobs_from
  server_reactor-IsHistory n select {after} {w} moves ran =
      let v =
        run_rounds-keeps IsServed n select (server_reactor abi k malloced socfd) after _ w
          (select-IsServed select moves) handlers-IsServed ran
          (record {
            history = Serving.new_serving io;
            reached = Serving.start;
            table = refl;
            kernel = refl;
            started = λ few. refl;
          }) in
      (
        v.history,
        v.reached,
        v.table,
        λ few. (v.started few, Reach-IsHistory abi k malloced v.reached few),
      )
