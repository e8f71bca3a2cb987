-- ===== src/Host/Replies.antt =====
-- What replies leave of a host, and lists of replies from both ends.
use private_distributed_clou.Prelude.{
  ℕ, ◌+◌, ◌≡◌, refl, ◌∙◌, Bool, true, false, ◌⊎◌, inl, inr, Option, none, some, List, [], ◌∷◌, ◌++◌,
  length, leb, ◌==◌, if◌then◌else◌, arith, Option-cases,
}
use mathlib.Core.Option
use private_distributed_clou.IntSet
use private_distributed_clou.Memory.{write_at, length-write_at}
use private_distributed_clou.Nbd.{NbdAbi}
use private_distributed_clou.Host.{RequestHost}
use private_distributed_clou.Host.Reply.{
  take_reply, store_fragment, forget_fragment, fragment_position,
}
use private_distributed_clou.Host.Completion.{take_replies}

-- What a reply leaves of its host.
pub record IsKept (before after : RequestHost) : Type 0 where
  pub type : after.nbq_req.req_type ≡ before.nbq_req.req_type
  pub len : after.nbq_req.data_len ≡ before.nbq_req.data_len
  pub sock : after.message.nbd_sock ≡ before.message.nbd_sock
  pub reply : after.message.reply ≡ before.message.reply
  pub room : length after.nbq_req.data_buf ≡ length before.nbq_req.data_buf

abbrev refilled : RequestHost → List ℕ → RequestHost
refilled host bytes' = record host {
  message = record (host.message) { nbd_req = record (host.nbq_req) { data_buf = bytes' } };
}

-- The host with other data in its buffer and a fragment struck off, or with a fragment struck off.
take_reply-cases :
    (abi : NbdAbi) (host after : RequestHost) (fragment : ℕ) (bytes : List ℕ)
    → take_reply abi host fragment bytes ≡ some after
    → ((bytes' : List ℕ) × (length bytes' ≡ length host.nbq_req.data_buf)
        × (after ≡ forget_fragment (refilled host bytes') fragment))
      ⊎ (after ≡ forget_fragment host fragment)
unfolding take_reply store_fragment
take_reply-cases abi host after fragment bytes e =
    by_case (host.nbq_req.req_type == abi.cmd_read)
      (leb (fragment_position fragment + length bytes) (length host.nbq_req.data_buf)) e
  where
    written : List ℕ
    written = write_at (fragment_position fragment) bytes host.nbq_req.data_buf

    by_case :
        (reads fits : Bool)
        → ◌≡◌ {A = Option RequestHost}
            (if reads
              then elim (if fits then some (refilled host written) else none) [
                | none ↦ none
                | some stored ↦ some (forget_fragment stored fragment)
              ]
              else some (forget_fragment host fragment))
            (some after)
        → ((bytes' : List ℕ) × (length bytes' ≡ length host.nbq_req.data_buf)
            × (after ≡ forget_fragment (refilled host bytes') fragment))
          ⊎ (after ≡ forget_fragment host fragment)
    by_case true true e' =
        inl (written, length-write_at (fragment_position fragment) bytes host.nbq_req.data_buf, cc)
    by_case true false e' = cc
    by_case false fits e' = inr cc

pub take_reply-IsKept :
    (abi : NbdAbi) (host after : RequestHost) (fragment : ℕ) (bytes : List ℕ)
    → take_reply abi host fragment bytes ≡ some after
    → IsKept host after × (after.fragmentation_set ≡ IntSet.erase fragment host.fragmentation_set)
unfolding take_reply store_fragment forget_fragment
take_reply-IsKept abi host after fragment bytes e =
    elim (take_reply-cases abi host after fragment bytes e) [
      | inl (_, room, same) ↦
          rw same (record { type = refl; len = refl; sock = refl; reply = refl; room = room }, refl)
      | inr same ↦
          rw same (record { type = refl; len = refl; sock = refl; reply = refl; room = refl }, refl)
    ]

-- The first reply of a list, and the others.
pub take_replies-cons :
    (abi : NbdAbi) (host after : RequestHost) (fragment : ℕ) (bytes : List ℕ)
    (replies : List (ℕ × List ℕ))
    → take_replies abi host ((fragment, bytes) ∷ replies) ≡ some after
    → (next : RequestHost) × (take_reply abi host fragment bytes ≡ some next)
      × (take_replies abi next replies ≡ some after)
unfolding take_replies Option.bind
take_replies-cons abi host after fragment bytes replies e =
    elim (Option-cases (take_reply abi host fragment bytes)) [
      | inl missing ↦ absurd (ground (arith, missing, e))
      | inr (next, got) ↦ (next, got, ground (arith, got, e))
    ]

-- All replies of a list but the last one.
pub take_replies-snoc :
    (abi : NbdAbi) (replies : List (ℕ × List ℕ)) (host after : RequestHost) (fragment : ℕ)
    (bytes : List ℕ)
    → take_replies abi host (replies ++ ((fragment, bytes) ∷ [])) ≡ some after
    → (mid : RequestHost) × (take_replies abi host replies ≡ some mid)
      × (take_reply abi mid fragment bytes ≡ some after)
unfolding take_replies Option.bind
take_replies-snoc abi [] host after fragment bytes e =
    let (next, got, end) = take_replies-cons abi host after fragment bytes [] e in
    (host, refl, got ∙ end)
take_replies-snoc abi ((f, bs) ∷ replies) host after fragment bytes e =
    let (next, got, more) =
      take_replies-cons abi host after f bs (replies ++ ((fragment, bytes) ∷ [])) e in
    let (mid, run, last) = take_replies-snoc abi replies next after fragment bytes more in
    (mid, rw got run, last)
