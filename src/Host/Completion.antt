-- ===== src/Host/Completion.antt =====
-- When a request is answered, and what its buffer holds then, in whatever order the replies come.
use private_distributed_clou.Prelude.{
  ℕ, zero, suc, ◌+◌, ◌-◌, ◌*◌, ◌≤◌, ◌<◌, ◌^◌, ◌≡◌, ◌↔◌, refl, ap, ◌∙◌, Bool, true, false, not, ◌&&◌,
  ◌||◌, Option, some, List, [], ◌∷◌, ltb, leb, ◌==◌, if◌then◌else◌, arith, length, ℕ_discrete,
}
use mathlib.Core.Option
use private_distributed_clou.Memory.{get_elem?, write_at, length-write_at, get_elem?-write_at}
use private_distributed_clou.IntSet
use private_distributed_clou.Nbd.{NbdAbi, NbdMessage}
use private_distributed_clou.Host.{
  RequestHost, frag_size, fragment_count, insert_fragments, create_host,
}
use private_distributed_clou.Host.Reply.{fragment_position, take_reply, is_answered}

contains-insert_fragments :
    (rounds i k : ℕ) (s : List ℕ)
    → IntSet.contains k (insert_fragments rounds i s)
      ≡ ((leb i k && ltb k (i + rounds)) || IntSet.contains k s)
unfolding insert_fragments
contains-insert_fragments zero i k s = ground arith
contains-insert_fragments (suc rounds) i k s = ground (
  arith,
  contains-insert_fragments rounds (i + 1) k (IntSet.insert i s),
  IntSet.contains-insert k i s,
)

-- A new host waits for the fragments `0`, …, `dataLen / 1024 - 1` and for no other.
pub contains-create_host :
    (next_uid : ℕ) (m : NbdMessage) (k : ℕ)
    → IntSet.contains k (create_host next_uid m).0.fragmentation_set
      ≡ ltb k (fragment_count m.nbd_req)
unfolding create_host IntSet.contains
contains-create_host next_uid m k =
    ground (arith, contains-insert_fragments (fragment_count m.nbd_req) 0 k [])

-- All replies of a list, in order.
unfoldable pub take_replies : NbdAbi → RequestHost → List (ℕ × List ℕ) → Option RequestHost
take_replies abi host [] = some host
take_replies abi host ((fragment, bytes) ∷ replies) =
    Option.bind (take_reply abi host fragment bytes) (λ next. take_replies abi next replies)

-- Some reply of the list is for fragment `k`.
unfoldable pub answers : List (ℕ × List ℕ) → ℕ → Bool
answers [] k = false
answers ((fragment, bytes) ∷ replies) k = fragment == k || answers replies k

-- The replies to a read that devices with the fragments `contents` give: one fragment of the request
-- each, with the 1024 bytes of it.
abbrev pub AreFrom : (ℕ → List ℕ) → ℕ → List (ℕ × List ℕ) → Type 0
AreFrom contents n [] = Unit {0}
AreFrom contents n ((fragment, bytes) ∷ replies) =
    (fragment < n)
    × (bytes ≡ contents fragment)
    × (length bytes ≡ frag_size)
    × AreFrom contents n replies

-- The host before and after the replies.
pub record Answered (contents : ℕ → List ℕ) (replies : List (ℕ × List ℕ))
    (before after : RequestHost) : Type 0 where
  -- Exactly the fragments of the replies are struck off.
  pub struck :
      (k : ℕ)
      → IntSet.contains k after.fragmentation_set
        ≡ (IntSet.contains k before.fragmentation_set && not (answers replies k))
  -- The buffer has the contents of the fragments that were answered, and is otherwise as before.
  pub stored :
      (k i : ℕ)
      → i < frag_size
      → get_elem? after.nbq_req.data_buf (k * frag_size + i) ≡ (
          if answers replies k
          then get_elem? (contents k) i
          else get_elem? before.nbq_req.data_buf (k * frag_size + i))
  pub same_type : after.nbq_req.req_type ≡ before.nbq_req.req_type
  pub same_len : after.nbq_req.data_len ≡ before.nbq_req.data_len
  pub same_size : length after.nbq_req.data_buf ≡ length before.nbq_req.data_buf

module _ (abi : NbdAbi) (contents : ℕ → List ℕ) where
  -- The host after one reply to a read.
  abbrev stored_host : RequestHost → ℕ → List ℕ → RequestHost
  stored_host host fragment bytes = record {
    message = record (host.message) {
      nbd_req = record (host.nbq_req) {
        data_buf = write_at (fragment * frag_size) bytes host.nbq_req.data_buf;
      };
    };
    req_uid = host.req_uid;
    fragmentation_set = IntSet.erase fragment host.fragmentation_set;
  }

  take_reply-read :
      (host : RequestHost) (fragment : ℕ) (bytes : List ℕ)
      → host.nbq_req.req_type ≡ abi.cmd_read
      → fragment < fragment_count host.nbq_req
      → length bytes ≡ frag_size
      → host.nbq_req.data_len < 2 ^ 32
      → host.nbq_req.data_len ≤ length host.nbq_req.data_buf
      → take_reply abi host fragment bytes ≡ some (stored_host host fragment bytes)
  unfolding take_reply
  take_reply-read host fragment bytes e lt len small fits =
      let here : fragment_position fragment ≡ fragment * frag_size = omega arith in ground arith

  stored-cons :
      (host after : RequestHost) (fragment : ℕ) (bytes : List ℕ) (replies : List (ℕ × List ℕ))
      (k i : ℕ)
      → bytes ≡ contents fragment
      → length bytes ≡ frag_size
      → fragment * frag_size + frag_size ≤ length host.nbq_req.data_buf
      → Answered contents replies (stored_host host fragment bytes) after
      → i < frag_size
      → get_elem? after.nbq_req.data_buf (k * frag_size + i) ≡ (
          if answers ((fragment, bytes) ∷ replies) k
          then get_elem? (contents k) i
          else get_elem? host.nbq_req.data_buf (k * frag_size + i))
  unfolding answers
  stored-cons host after fragment bytes replies k i e len fits done lt =
      elim (ℕ_discrete fragment k) [
        | yes same ↦
            let at : k * frag_size + i - fragment * frag_size ≡ i = omega arith in
            ground (arith, done.stored k i, written)
        | no other ↦ ground (arith, done.stored k i, written)
      ]
    where
      written :
          get_elem?
            (write_at (fragment * frag_size) bytes host.nbq_req.data_buf)
            (k * frag_size + i)
          ≡ (if leb (fragment * frag_size) (k * frag_size + i)
                && ltb (k * frag_size + i) (fragment * frag_size + length bytes)
              then get_elem? bytes (k * frag_size + i - fragment * frag_size)
              else get_elem? host.nbq_req.data_buf (k * frag_size + i))
      written =
          get_elem?-write_at (fragment * frag_size) bytes host.nbq_req.data_buf (k * frag_size + i)
            (omega arith)

  Answered-cons :
      (host after : RequestHost) (fragment : ℕ) (bytes : List ℕ) (replies : List (ℕ × List ℕ))
      → bytes ≡ contents fragment
      → length bytes ≡ frag_size
      → fragment * frag_size + frag_size ≤ length host.nbq_req.data_buf
      → Answered contents replies (stored_host host fragment bytes) after
      → Answered contents ((fragment, bytes) ∷ replies) host after
  unfolding answers
  Answered-cons host after fragment bytes replies e len fits done = record {
    struck =
        λ k. ground (arith, done.struck k, IntSet.contains-erase k fragment host.fragmentation_set);
    stored = λ k i lt. stored-cons host after fragment bytes replies k i e len fits done lt;
    same_type = done.same_type;
    same_len = done.same_len;
    same_size = done.same_size ∙ length-write_at (fragment * frag_size) bytes host.nbq_req.data_buf;
  }

  take_replies-read :
      (replies : List (ℕ × List ℕ)) (host : RequestHost)
      → host.nbq_req.req_type ≡ abi.cmd_read
      → host.nbq_req.data_len < 2 ^ 32
      → host.nbq_req.data_len ≤ length host.nbq_req.data_buf
      → AreFrom contents (fragment_count host.nbq_req) replies
      → (after : RequestHost) × (take_replies abi host replies ≡ some after)
        × Answered contents replies host after
  unfolding take_replies answers Option.bind
  take_replies-read [] host e small fits from = (
    host,
    refl,
    record {
      struck = λ k. ground arith;
      stored = λ k i lt. refl;
      same_type = refl;
      same_len = refl;
      same_size = refl;
    },
  )
  take_replies-read ((fragment, bytes) ∷ replies) host e small fits from =
      let size = length-write_at (fragment * frag_size) bytes host.nbq_req.data_buf in
      let rest =
        take_replies-read replies (stored_host host fragment bytes) e small (omega (arith, size))
          from.3 in
      (
        rest.0,
        ap (λ x. Option.bind x (λ next. take_replies abi next replies))
              (take_reply-read host fragment bytes e from.0 from.2 small fits)
            ∙ rest.1,
        Answered-cons host rest.0 fragment bytes replies from.1 from.2 (omega arith) rest.2,
      )

  -- A read that is as long as its fragments, from the moment it is taken on: whatever replies its devices
  -- give, in any order and with repetitions, the host takes them all without a write outside the buffer.
  -- It then waits for no fragment exactly if each fragment of the request was answered, and the buffer
  -- has the contents of every fragment that was answered.
  pub read_reassembled :
      (next_uid : ℕ) (m : NbdMessage) (replies : List (ℕ × List ℕ))
      → m.nbd_req.req_type ≡ abi.cmd_read
      → m.nbd_req.data_len < 2 ^ 32
      → length m.nbd_req.data_buf ≡ m.nbd_req.data_len
      → AreFrom contents (fragment_count m.nbd_req) replies
      → (after : RequestHost) × (take_replies abi (create_host next_uid m).0 replies ≡ some after)
        × ((is_answered after ≡ true)
            ↔ ((k : ℕ) → k < fragment_count m.nbd_req → answers replies k ≡ true))
        × ((k i : ℕ)
            → i < frag_size
            → answers replies k ≡ true
            → get_elem? after.nbq_req.data_buf (k * frag_size + i) ≡ get_elem? (contents k) i)
  unfolding create_host
  read_reassembled next_uid m replies e small size from =
      let host = (create_host next_uid m).0 in
      let (after, run, done) = take_replies-read replies host e small (omega arith) from in
      let waits = λ (k : ℕ). contains-create_host next_uid m k in
      (
        after,
        run,
        (
          (λ h k lt.
              ground (
                arith,
                waits k,
                done.struck k,
                IntSet.none_of_is_empty after.fragmentation_set h k,
              )),
          (λ all.
              IntSet.is_empty_of_none after.fragmentation_set
                (λ k. ground (arith, waits k, done.struck k, all k))),
        ),
        λ k i lt answered. ground (arith, done.stored k i),
      )
