-- ===== src/Queue/InProcess.antt =====
-- `TestQueue` of ipc/test_queue.h and ipc/test_queue.cc: the queue inside of one process that takes
-- the place of the shared memory in tests, with a single name. A call that waits is two steps, since
-- it gives up the lock between them.
pub mod Lockstep
pub mod Synced
pub mod Complete
use boat.Prelude.{
  ℕ, zero, suc, ◌+◌, ◌-◌, min, Bool, true, false, not, ◌&&◌, ◌||◌, Option, none, some, List, [],
  ◌∷◌, ◌++◌, leb, ◌==◌, if◌then◌else◌, length, set, replicate,
}
use boat.Prelude.Int.{ℤ, pos, negsuc}
use boat.MessageQueue.{memcpy}

-- `QueueData`. A user is -1, or the number of the last message that it has.
pub record QueueData : Type 0 where
  pub bytes : Option (List ℕ)
  pub cnt : ℕ
  pub users : List ℤ
  pub data_len : ℕ
  pub inc : ℕ

pub record TestQueue : Type 0 where
  pub max_size : ℕ
  pub last_inc : ℕ
  pub idx : ℕ

-- What `operator[]` makes for a name that is new.
abbrev pub new_data : QueueData
new_data = record { bytes = none; cnt = 0; users = []; data_len = 0; inc = 0 }

unfoldable pub construct : ℕ → QueueData → QueueData × TestQueue
construct max_size q = (
  record q { cnt = q.cnt + 1; users = q.users ++ negsuc 0 ∷ [] },
  record { max_size = max_size; last_inc = 0; idx = length q.users },
)

-- The last one takes the entry with it.
unfoldable pub destroy : TestQueue → QueueData → QueueData
destroy h q =
    if q.cnt - 1 == 0
    then new_data
    else record q { cnt = q.cnt - 1; users = set q.users h.idx (negsuc 0) }

-- `send` up to its wait.
unfoldable pub send : TestQueue → List ℕ → QueueData → QueueData
send h msg q =
    let buffer : List ℕ = elim q.bytes [ none ↦ replicate h.max_size 0 | some b ↦ b ] in
    let n = min (length msg) h.max_size in
    record q { inc = q.inc + 1; bytes = some (memcpy buffer msg n); data_len = n }

abbrev pub has_read : ℕ → ℤ → Bool
has_read inc (pos n) = leb inc n
has_read inc (negsuc n) = true

abbrev pub all_read : ℕ → List ℤ → Bool
all_read inc [] = true
all_read inc (n ∷ ns) = has_read inc n && all_read inc ns

-- What `send` waits for, for 50 milliseconds at most.
unfoldable pub send_done : Bool → QueueData → Bool
send_done shutdown q = shutdown || all_read q.inc q.users

-- `receive` up to its wait.
unfoldable pub begin_receive : TestQueue → QueueData → QueueData
begin_receive h q = if h.last_inc == 0 then record q { users = set q.users h.idx (pos 0) } else q

-- What `receive` waits for.
unfoldable pub has_news : Bool → TestQueue → QueueData → Bool
has_news shutdown h q = shutdown || not (q.inc == h.last_inc)

-- The rest of it: whether it succeeds, the buffer, and how much of it is filled. The size of the
-- buffer is its length.
unfoldable pub finish_receive :
    Bool → TestQueue → List ℕ → QueueData → (Bool × (List ℕ × ℕ)) × (TestQueue × QueueData)
finish_receive shutdown h msg q =
    let read = record q { users = set q.users h.idx (pos q.inc) } in
    let h' = record h { last_inc = q.inc } in
    elim q.bytes [
      | none ↦ ((false, (msg, 0)), (h', read))
      | some b ↦
          let rcvd = min (length msg) q.data_len in
          ((not shutdown, (memcpy msg b rcvd, rcvd)), (h', read))
    ]
