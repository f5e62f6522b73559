-- ===== src/Queue/InProcess/Lockstep.antt =====
-- Readers of the queue for tests (ipc/test_queue.cc) while every send waits until all have read.
use boat.Prelude.{
  ℕ, zero, suc, ◌-◌, ◌≤◌, ◌<◌, ◌≡◌, ◌≢◌, Bool, true, false, Option, none, some, List, [], ◌∷◌,
  length, get_or, take, drop,
}
use boat.Prelude.Int.{ℤ, pos, negsuc}
use boat.Queue.InProcess.{
  QueueData, TestQueue, construct, send, send_done, begin_receive, has_news, finish_receive,
}

-- A queue with one of its readers; `sent` and `got` are all messages so far, the newest first.
pub record System : Type 0 where
  pub queue : QueueData
  pub reader : TestQueue
  pub receiving : Bool
  pub sent : List (List ℕ)
  pub got : List (List ℕ)

-- A reader that joins an old or a new queue.
abbrev pub joined : ℕ → List (List ℕ) → QueueData → System
joined max_size sent q = record {
  queue = (construct max_size q).0;
  reader = (construct max_size q).1;
  receiving = false;
  sent = sent;
  got = [];
}

abbrev pub received : System → List ℕ → System
received s buffer =
    let ((success, (bytes, rcvd)), (h, q)) = finish_receive false s.reader buffer s.queue in
    record s { queue = q; reader = h; receiving = false; got = take rcvd bytes ∷ s.got }

-- What this reader, the others and the senders do. A sender goes on when all that read have read the
-- message before.
pub data Step (max_size : ℕ) : System → System → Type 0 where
  sends :
      (s : System) (g : TestQueue) (msg : List ℕ)
      → g.max_size ≡ max_size
      → length msg ≤ max_size
      → send_done false s.queue ≡ true
      → Step max_size s (record s { queue = send g msg s.queue; sent = msg ∷ s.sent })
  begins :
      (s : System)
      → s.receiving ≡ false
      → Step max_size s (record s { queue = begin_receive s.reader s.queue; receiving = true })
  finishes :
      (s : System) (buffer : List ℕ)
      → s.receiving ≡ true
      → max_size ≤ length buffer
      → has_news false s.reader s.queue ≡ true
      → Step max_size s (received s buffer)
  joins : (s : System) → Step max_size s (record s { queue = (construct max_size s.queue).0 })
  other_begins :
      (s : System) (g : TestQueue)
      → g.idx ≢ s.reader.idx
      → Step max_size s (record s { queue = begin_receive g s.queue })
  other_finishes :
      (s : System) (g : TestQueue) (buffer : List ℕ)
      → g.idx ≢ s.reader.idx
      → Step max_size s (record s { queue = (finish_receive false g buffer s.queue).1.1 })

pub data Reach (max_size : ℕ) (s : System) : System → Type 0 where
  here : Reach max_size s s
  later : {t u : System} → Reach max_size s t → Step max_size t u → Reach max_size s u

-- The newest message is in the buffer.
abbrev pub Holds : List (List ℕ) → Option (List ℕ) → ℕ → Type 0
Holds [] b n = b ≡ none
Holds (m ∷ ms) none n = ⊥
Holds (m ∷ ms) (some b) n = (take n b ≡ m) × (n ≡ length m)

-- Where the reader stands: -1 before its first call.
abbrev pub Stands : ℤ → ℕ → ℕ → Bool → List (List ℕ) → Type 0
Stands (negsuc n) last inc receiving got = (last ≡ 0) × (receiving ≡ false) × (got ≡ [])
Stands (pos zero) last inc receiving got = (last ≡ 0) × (got ≡ [])
Stands (pos (suc n)) last inc receiving got = (last ≡ suc n) × (last ≤ inc) × (inc ≤ suc last)

pub record IsSynced (max_size : ℕ) (s : System) : Type 0 where
  pub numbered : length s.sent ≡ s.queue.inc
  pub in_list : s.reader.idx < length s.queue.users
  pub holds : Holds s.sent s.queue.bytes s.queue.data_len
  pub small : s.queue.data_len ≤ max_size
  pub stands :
      Stands
        (get_or s.queue.users s.reader.idx (negsuc 0))
        s.reader.last_inc
        s.queue.inc
        s.receiving
        s.got
  pub complete : s.got ≡ take (length s.got) (drop (s.queue.inc - s.reader.last_inc) s.sent)
