-- ===== src/Queue/Tests.antt =====
-- Instances for the life of a queue (ipc/queue.cc) and for the queue for tests (ipc/test_queue.cc).
use boat.Prelude.{
  ◌-◌, ◌≤◌, ◌≡◌, refl, ◌↔◌, false, true, [], ◌∷◌, arith, take, drop, length, ◌==◌, if◌then◌else◌,
  replicate,
}
use boat.Queue.{
  Shared, writer_opens, writer_posts, reader_waits, reader_posts, closer_waits, run, writer_open,
  writer_post, reader_wait, reader_post, close_wait, close_try,
}
use boat.Queue.Writers.{removed_by_last_writer}
use boat.Queue.InProcess.{
  TestQueue, new_data, construct, send, begin_receive, finish_receive, send_done, has_news,
}
use boat.Queue.InProcess.Lockstep.{
  System, joined, received, Reach, here, later, sends, begins, finishes,
}
use boat.Queue.InProcess.Complete.{lockstep_loses_none}

-- Two writers, one of which is closing, and a reader that has joined.
abbrev closing : Shared
closing = record {
  semaphore = 1;
  named = true;
  opening = 0;
  opened = 1;
  joining = 0;
  probing = 1;
  restoring = 0;
}

abbrev still_open : Shared
still_open = record closing { semaphore = 0; probing = 0; restoring = 1 }

removed_by_last_writer_example : (still_open.named ≡ false) ↔ (closing.opened ≡ 0)
unfolding run writer_open writer_post reader_wait reader_post close_wait close_try
removed_by_last_writer_example =
    removed_by_last_writer
      (writer_opens ∷ writer_posts ∷ writer_opens ∷ reader_waits ∷ writer_posts ∷ reader_posts
        ∷ closer_waits ∷ [])
      {s = closing} {t = still_open} refl refl refl refl

-- A reader joins a new queue, begins to receive, and gets the first message.
abbrev writer : TestQueue
writer = record { max_size = 4; last_inc = 0; idx = 7 }

abbrev s0 : System
s0 = joined 4 [] new_data

abbrev s1 : System
s1 = record s0 { queue = begin_receive s0.reader s0.queue; receiving = true }

abbrev s2 : System
s2 = record s1 { queue = send writer (5 ∷ 6 ∷ []) s1.queue; sent = (5 ∷ 6 ∷ []) ∷ s1.sent }

abbrev s3 : System
s3 = received s2 (replicate 4 0)

s3-Reach : Reach 4 s0 s3
unfolding construct begin_receive send finish_receive send_done has_news
s3-Reach =
    later
      (later (later here (begins s0 refl)) (sends s1 writer (5 ∷ 6 ∷ []) refl (omega arith) refl))
      (finishes s2 (replicate 4 0) refl (omega arith) refl)

lockstep_loses_none_example :
    (s3.got ≡ take (length s3.got) (drop (s3.queue.inc - s3.reader.last_inc) s3.sent))
    × ((if s3.reader.last_inc == 0 then 0 else s3.queue.inc - s3.reader.last_inc) ≤ 1)
lockstep_loses_none_example = lockstep_loses_none 4 [] new_data refl refl (omega arith) s3-Reach

message_got : s3.got ≡ (5 ∷ 6 ∷ []) ∷ []
unfolding construct begin_receive send finish_receive
message_got = refl
