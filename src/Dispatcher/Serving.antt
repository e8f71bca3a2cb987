-- ===== src/Dispatcher/Serving.antt =====
-- RequestDispatcher over the life of the server: both handlers, called in any order for any number of requests. The
-- world may move between two calls.
use private_distributed_clou.Prelude.{
  ℕ, zero, suc, ◌≤◌, ◌<◌, ◌≡◌, refl, Bool, true, false, not, ◌&&◌, ◌||◌, none, some, List, [], ◌∷◌,
  ◌++◌, length, ltb, ◌==◌, if◌then◌else◌, arith, ℕ_discrete,
}
use private_distributed_clou.Run.{Run, done, ◌>>=◌}
use private_distributed_clou.Assoc
use private_distributed_clou.IntSet
use private_distributed_clou.Memory.{get_elem?}
use private_distributed_clou.Net.{Kernel, recv_all}
use private_distributed_clou.Nbd.{NbdAbi, NbdMessage, nbd_request_read}
use private_distributed_clou.Command.{SendMsgInfo, header_size}
use private_distributed_clou.Host.{RequestHost, fragment_count}
use private_distributed_clou.Host.Reply.{load_header, peek, is_answered}
use private_distributed_clou.Dispatcher.{
  RequestDispatcher, new_dispatcher, nbd_requests_handle, iot_handle,
}

-- The dispatcher, the requests that it has read, the first one first, the replies that it has taken, by request and
-- fragment, and the world.
pub record Serving (k : Kernel) : Type 0 where
  pub dispatcher : RequestDispatcher
  pub asked : List NbdMessage
  pub replied : List (ℕ × ℕ)
  pub io : k.World

abbrev pub new_serving : {k : Kernel} → k.World → Serving k
new_serving io = record { dispatcher = new_dispatcher; asked = []; replied = []; io = io }

-- The number that `IotHandle` peeks at, and the fragment in the header that it then receives.
unfoldable pub reply_head : (k : Kernel) → ℕ → k.World → Run (ℕ × ℕ)
reply_head k fd w = peek k fd w >>= λ p.
    recv_all k false fd header_size p.1 >>= λ head. done (p.0, (load_header head.0).fragment_uid)

module _ (abi : NbdAbi) (k : Kernel) (malloced : ℕ → List ℕ) where
  pub data Step (s : Serving k) : Serving k → Type 0 where
    asks :
        (socket : ℕ → ℕ) (m : NbdMessage) (w1 w' : k.World) (d' : RequestDispatcher)
        (jobs : List SendMsgInfo)
        → nbd_request_read abi k malloced (socket 0) s.io ≡ done (m, w1)
        → nbd_requests_handle abi k malloced s.dispatcher socket s.io ≡ done (d', jobs, w')
        → Step s (record s { dispatcher = d'; asked = s.asked ++ (m ∷ []); io = w' })
    answers :
        (fd uid fragment : ℕ) (w' : k.World) (d' : RequestDispatcher)
        → reply_head k fd s.io ≡ done (uid, fragment)
        → iot_handle abi k s.dispatcher fd s.io ≡ done (d', w')
        → Step s (record s { dispatcher = d'; replied = (uid, fragment) ∷ s.replied; io = w' })
    passes : (w' : k.World) → Step s (record s { io = w' })

  pub data Reach (io : k.World) : Serving k → Type 0 where
    start : Reach io (new_serving io)
    later : {s t : Serving k} → Reach io s → Step s t → Reach io t

-- Some reply was for this fragment of the request.
unfoldable pub is_replied : List (ℕ × ℕ) → ℕ → ℕ → Bool
is_replied [] uid i = false
is_replied ((u, f) ∷ replied) uid i = (u == uid && f == i) || is_replied replied uid i

-- The entry of a request: its host has its number, waits exactly for the fragments of the request to which no reply
-- has come, and for one of them, unless the request has none.
pub record IsWaiting {k : Kernel} (s : Serving k) (uid : ℕ) (host : RequestHost) : Type 0 where
  pub own_uid : host.req_uid ≡ uid
  pub request : NbdMessage
  pub was_asked : get_elem? s.asked uid ≡ some request
  pub waits :
      (i : ℕ)
      → IntSet.contains i host.fragmentation_set
        ≡ (ltb i (fragment_count request.nbd_req) && not (is_replied s.replied uid i))
  pub still : is_answered host ≡ true → fragment_count request.nbd_req ≡ 0

pub record IsHistory {k : Kernel} (s : Serving k) : Type 0 where
  -- The next request gets the number of those that were read.
  pub counter : s.dispatcher.next_uid ≡ length s.asked
  pub entries :
      (uid : ℕ) (host : RequestHost)
      → Assoc.find ℕ_discrete uid s.dispatcher.active_requests ≡ some host
      → IsWaiting s uid host
  -- A request without an entry has got a reply to each of its fragments.
  pub gone :
      (uid : ℕ) (m : NbdMessage)
      → get_elem? s.asked uid ≡ some m
      → Assoc.find ℕ_discrete uid s.dispatcher.active_requests ≡ none
      → (i : ℕ) → i < fragment_count m.nbd_req
      → is_replied s.replied uid i ≡ true
  -- No reply comes before its request.
  pub early : (uid i : ℕ) → length s.asked ≤ uid → is_replied s.replied uid i ≡ false

pub get_elem?-snoc :
    (ms : List NbdMessage) (m : NbdMessage) (i : ℕ)
    → get_elem? (ms ++ (m ∷ [])) i ≡ (if length ms == i then some m else get_elem? ms i)
get_elem?-snoc [] m zero = refl
get_elem?-snoc [] m (suc i) = ground arith
get_elem?-snoc (x ∷ ms) m zero = ground arith
get_elem?-snoc (x ∷ ms) m (suc i) = ground (arith, get_elem?-snoc ms m i)

pub get_elem?-lt :
    (ms : List NbdMessage) (m : NbdMessage) (i : ℕ) → get_elem? ms i ≡ some m → i < length ms
get_elem?-lt [] m i e = cc
get_elem?-lt (x ∷ ms) m zero e = omega arith
get_elem?-lt (x ∷ ms) m (suc i) e = omega (arith, get_elem?-lt ms m i e)
