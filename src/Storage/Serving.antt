-- ===== src/Storage/Serving.antt =====
-- The storage server of main.cpp, whose event loop takes one request after the other.
use private_distributed_clou.Prelude.{
  ℕ, ◌+◌, ◌<◌, ◌≡◌, refl, ap, sym, ◌∙◌, Option, none, some, List, [], ◌∷◌, ◌++◌, length, inl, inr,
  Option-cases, length-append, arith,
}
use mathlib.Core.List.{append_assoc, append-nil}
use private_distributed_clou.Run.{Run, done, fault, ◌>>=◌}
use private_distributed_clou.Net.{Kernel}
use private_distributed_clou.Net.Live.{IsLive}
use private_distributed_clou.Net.Duplex.{IsDuplex}
use private_distributed_clou.Nbd.{NbdAbi, NbdMessage, message_of, nbd_request_done}
use private_distributed_clou.Nbd.Exchange.{
  SentRequest, IsSent, message_sent, answer_to, nbd_request_read_sent, nbd_request_done_sent,
}
use private_distributed_clou.Function.{Function, bind_free, invoke, run_bound}
use private_distributed_clou.Select.{SelectCall}
use private_distributed_clou.Reactor.{Reactor, run_rounds}
use private_distributed_clou.Reactor.Single.{only, IsSingle, run_round-IsSingle, register-IsSingle}
use private_distributed_clou.Storage.{
  Served, serve, with_buffer, handle, StorageWorld, Object, storage_callable, storage_reactor,
}

-- Requests, one behind the other, on the stream.
unfoldable pub bytes_of : List SentRequest → List ℕ
bytes_of [] = []
bytes_of (q ∷ qs) = q.header ++ (q.payload ++ bytes_of qs)

unfoldable pub AllSent : NbdAbi → List SentRequest → Type 0
AllSent abi [] = Unit
AllSent abi (q ∷ qs) = IsSent abi q × AllSent abi qs

-- An answer in front of those that follow.
unfoldable pub answered_before : List ℕ → Option (List ℕ × List ℕ) → Option (List ℕ × List ℕ)
answered_before first none = none
answered_before first (some r) = some (r.0, first ++ r.1)

-- What is promised: the requests are served in order, each on the storage that the one before has left,
-- and the answers stand one behind the other. `none` is a request outside the storage.
unfoldable pub serve_all :
    NbdAbi → (ℕ → List ℕ) → ℕ → List SentRequest → List ℕ → Option (List ℕ × List ℕ)
unfolding serve message_sent answer_to answered_before
serve_all abi malloced sock [] storage = some (storage, [])
serve_all abi malloced sock (q ∷ qs) storage =
    elim (serve abi (message_sent abi malloced sock q).nbd_req storage) [
      | none ↦ none
      | some s ↦
          answered_before (answer_to abi malloced sock q s.data_buf)
            (serve_all abi malloced sock qs s.storage)
    ]

both_some :
    (o : Option Served) (more : Served → Option (List ℕ × List ℕ)) (answer : Served → List ℕ)
    (after answers : List ℕ)
    → ◌≡◌ {A = Option (List ℕ × List ℕ)}
        (elim o [ none ↦ none | some s ↦ answered_before (answer s) (more s) ])
        (some (after, answers))
    → (s : Served) × (later : List ℕ) × (o ≡ some s)
      × (more s ≡ some (after, later))
      × (answers ≡ answer s ++ later)
unfolding answered_before
both_some none more answer after answers e = cc
both_some (some s) more answer after answers e = elim (Option-cases (more s)) [
  | inl missing ↦ absurd (ground (arith, missing, e))
  | inr (r, found) ↦ (s, r.1, refl, ground (arith, found, e), ground (arith, found, e))
]

-- A request that is served, and those behind it.
serve_all-some :
    (abi : NbdAbi) (malloced : ℕ → List ℕ) (sock : ℕ) (q : SentRequest) (qs : List SentRequest)
    (storage after answers : List ℕ)
    → serve_all abi malloced sock (q ∷ qs) storage ≡ some (after, answers)
    → (s : Served) × (later : List ℕ) × (serve abi
          (message_sent abi malloced sock q).nbd_req
          storage
        ≡ some s)
      × (serve_all abi malloced sock qs s.storage ≡ some (after, later))
      × (answers ≡ answer_to abi malloced sock q s.data_buf ++ later)
unfolding serve_all
serve_all-some abi malloced sock q qs storage after answers e =
    both_some (serve abi (message_sent abi malloced sock q).nbd_req storage)
      (λ s. serve_all abi malloced sock qs s.storage)
      (λ s. answer_to abi malloced sock q s.data_buf) after answers e

module _ (abi : NbdAbi) (k : Kernel) (malloced : ℕ → List ℕ) (sock : ℕ) (live : IsLive k sock)
    (both : IsDuplex k sock sock) where
  -- `Handle` on a request that can be served.
  handle_sent :
      (q : SentRequest) (rest storage : List ℕ) (w : k.World) (s : Served)
      → IsSent abi q
      → k.incoming w sock ≡ q.header ++ (q.payload ++ rest)
      → serve abi (message_sent abi malloced sock q).nbd_req storage ≡ some s
      → (w' : k.World) × (handle abi k malloced sock storage w ≡ done (s.storage, 1, w'))
        × (k.incoming w' sock ≡ rest)
        × (k.outgoing w' sock ≡ k.outgoing w sock ++ answer_to abi malloced sock q s.data_buf)
  unfolding handle with_buffer message_sent message_of
  handle_sent q rest storage w s sent stream served =
      let (w1, got, left, kept) =
        nbd_request_read_sent abi malloced sock k live both q rest w sent stream in
      let (w2, put, left2, out) =
        nbd_request_done_sent abi malloced sock k live both q s.data_buf w1 in
      (
        w2,
        ap (λ r. r >>= λ m. answered m.1 (serve abi m.0.nbd_req storage) m.0) got
            ∙ ap (λ o. answered w1 o (message_sent abi malloced sock q)) served
            ∙ ap (λ r. r >>= λ w'. done (s.storage, 1, w')) put,
        left2 ∙ left,
        out ∙ ap (λ x. x ++ answer_to abi malloced sock q s.data_buf) kept,
      )
    where
      answered : k.World → Option Served → NbdMessage → Run (List ℕ × ℕ × k.World)
      answered v o m = elim o [
        | none ↦ fault
        | some t ↦
            nbd_request_done abi k (with_buffer m t.data_buf) 0 v >>= λ w'. done (t.storage, 1, w')
      ]

  -- `Handle` bound to the socket.
  abbrev served_by : Function (StorageWorld k) Object ℕ ℕ
  served_by = bind_free (storage_callable abi k malloced) sock

  module _ (select : SelectCall (StorageWorld k))
      (ready : (w : StorageWorld k)
        → 0 < length (k.incoming w.io sock)
        → select (sock + 1) (only sock) w ≡ (some 1, only sock, w))
      (filled : 0 < abi.request_size) where
    serve_rounds :
        (qs : List SentRequest) (r : Reactor (StorageWorld k) Object ℕ) (w : StorageWorld k)
        (rest after answers : List ℕ)
        → IsSingle sock served_by r
        → AllSent abi qs
        → k.incoming w.io sock ≡ bytes_of qs ++ rest
        → serve_all abi malloced sock qs w.storage ≡ some (after, answers)
        → (r' : Reactor (StorageWorld k) Object ℕ) × (w' : StorageWorld k) × (run_rounds
              (length qs)
              select
              r
              w
            ≡ done (r', w'))
          × (w'.storage ≡ after)
          × (k.incoming w'.io sock ≡ rest)
          × (k.outgoing w'.io sock ≡ k.outgoing w.io sock ++ answers)
    unfolding run_rounds bytes_of AllSent serve_all invoke run_bound bind_free storage_callable
    serve_rounds [] r w rest after answers single sent stream served =
        let same : answers ≡ [] = cc in
        (r, w, refl, cc, stream, rw same (sym (append-nil (k.outgoing w.io sock))))
    serve_rounds (q ∷ qs) r w rest after answers single sent stream served =
        let (s, later, here, behind, joined) =
          serve_all-some abi malloced sock q qs w.storage after answers served in
        let line : k.incoming w.io sock ≡ q.header ++ (q.payload ++ (bytes_of qs ++ rest)) =
          stream
          ∙ append_assoc q.header (q.payload ++ bytes_of qs) rest
          ∙ ap (◌++◌ q.header) (append_assoc q.payload (bytes_of qs) rest) in
        let some_there : 0 < length (k.incoming w.io sock) = omega (
          arith,
          ap length line,
          length-append q.header (q.payload ++ (bytes_of qs ++ rest)),
          (sent.0).size,
        ) in
        let (io, got, left, out) =
          handle_sent q (bytes_of qs ++ rest) w.storage w.io s sent.0 line here in
        let (r1, single1, round) =
          run_round-IsSingle select sock served_by r w w single (ready w some_there) in
        let next : StorageWorld k = record { storage = s.storage; io = io } in
        let (r', w', ran, kept, after_all, written) =
          serve_rounds qs r1 next rest after later single1 sent.1 left behind in
        (
          r',
          w',
          ap (λ m. m >>= onwards (length qs)) round
              ∙ ap (λ m. m >>= called >>= (λ x. done (r1, x.1)) >>= onwards (length qs)) got
              ∙ ran,
          kept,
          after_all,
          written
              ∙ ap (λ x. x ++ later) out
              ∙ append_assoc (k.outgoing w.io sock) (answer_to abi malloced sock q s.data_buf) later
              ∙ ap (◌++◌ (k.outgoing w.io sock)) (sym joined),
        )
      where
        onwards :
            ℕ
            → Reactor (StorageWorld k) Object ℕ × StorageWorld k
            → Run (Reactor (StorageWorld k) Object ℕ × StorageWorld k)
        onwards n x = run_rounds n select x.0 x.1

        called : List ℕ × ℕ × k.World → Run (ℕ × StorageWorld k)
        called x = done (x.1, record { storage = x.0; io = x.2 })

    -- The event loop of the storage server, on a socket whose calls do not fail and keep its two directions
    -- apart, and with a `select` that finds it ready while it has bytes: where requests stand on the
    -- stream and each lies inside the storage, as many rounds as there are requests serve them in order
    -- and leave the rest of the stream; the storage is then as after the last of them, and the socket has
    -- got their answers one behind the other, each read's with what the requests before it left.
    pub storage_serves :
        (qs : List SentRequest) (w : StorageWorld k) (rest after answers : List ℕ)
        → AllSent abi qs
        → k.incoming w.io sock ≡ bytes_of qs ++ rest
        → serve_all abi malloced sock qs w.storage ≡ some (after, answers)
        → (r' : Reactor (StorageWorld k) Object ℕ) × (w' : StorageWorld k) × (run_rounds
              (length qs)
              select
              (storage_reactor abi k malloced sock)
              w
            ≡ done (r', w'))
          × (w'.storage ≡ after)
          × (k.incoming w'.io sock ≡ rest)
          × (k.outgoing w'.io sock ≡ k.outgoing w.io sock ++ answers)
    unfolding storage_reactor
    storage_serves qs w rest after answers sent stream served =
        serve_rounds qs (storage_reactor abi k malloced sock) w rest after answers
          (register-IsSingle sock served_by) sent stream served
