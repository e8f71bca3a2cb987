-- ===== src/Relay/FailedSends.antt =====
-- atlas_ThreadPool.cpp: what a failed `sendmsg` does to the workers.
use private_distributed_clou.Prelude.{ℕ, ◌<◌, ◌≡◌, Bool, true, false, none, some, List, []}
use private_distributed_clou.Run.{Run, done, fault, running}
use private_distributed_clou.Nbd.{NbdAbi}
use private_distributed_clou.ThreadPool.{bad_apple_status}
use private_distributed_clou.ThreadPool.Tally.{tally}
use private_distributed_clou.ThreadPool.Workers.{Pool}
use private_distributed_clou.Relay.{RelayMessage}
use private_distributed_clou.Relay.Pool.{SendCall, Memory}

abbrev pub is_failed : SendCall → RelayMessage → Bool
is_failed sendmsg m = elim (sendmsg m) [ none ↦ true | some n ↦ false ]

-- What was sent, where nothing has faulted.
abbrev sent_of : Run Memory → List RelayMessage
sent_of w = elim w [ done mem ↦ mem.sent | fault ↦ [] | running ↦ [] ]

module _ (sendmsg : SendCall)
    (counts : (m : RelayMessage) (n : ℕ) → sendmsg m ≡ some n → n < bad_apple_status) where
  module _ (abi : NbdAbi) where
    -- A worker has stopped for each send that failed.
    abbrev StopsFailed : Pool (Run Memory) → Type 0
    StopsFailed p = p.stopped ≡ tally (is_failed sendmsg) (sent_of p.world)
