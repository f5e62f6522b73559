-- ===== src/MessageQueue/Receive/Wakeup.antt =====
-- What a waiting reader of ipc/message_queue.hpp gets when the condition variable wakes it.
use boat.Prelude.{
  ℕ, ◌+◌, ◌-◌, ◌≤◌, ◌<◌, ◌≡◌, refl, sym, ap, ◌∙◌, ◌≢◌, List, [], ◌∷◌, add64, ◌++◌, length, get_or,
  arith, mod_cases, ◌==◌, ◌||◌, true, some,
}
use boat.MessageQueue.{
  Header, Block, blocking, timed, non_blocking, Wake, notified, advance, pick, do_receive, wait,
  wait_blocking, wait_timed, is_empty,
}
use boat.MessageQueue.Window.{IsValid, contents, end_index_lem, get_or-window_zero}
use boat.MessageQueue.Receive.{lag, delivered, delivered-pick, lag_first, do_receive_quiet}

-- `advance` from the position that a wake-up sets leads to the newest message.
advance_after_wake :
    {h : Header}
    → IsValid h
    → 0 < h.cur_num_msg
    → advance h (add64 h.cur_first_msg 1) ≡ h.cur_first_msg
unfolding advance
advance_after_wake {h} v n = rw (end_index_lem v n) (
    ground (
      arith,
      v.small,
      mod_cases (h.cur_first_msg + (h.cur_num_msg - 1)) h.max_num_msg (omega arith),
    ))

pick_after_wake :
    {h : Header} (buffer : List ℕ)
    → IsValid h
    → 0 < h.cur_num_msg
    → (delivered (pick h (add64 h.cur_first_msg 1) buffer).0 ≡ some (get_or (contents h) 0 []))
      × ((pick h (add64 h.cur_first_msg 1) buffer).1 ≡ h.cur_first_msg)
unfolding pick
pick_after_wake {h} buffer v n = (
  delivered-pick (add64 h.cur_first_msg 1) buffer v
      ∙ rw (advance_after_wake v n) (
          ap some (
            sym
              (get_or-window_zero h.memory h.index h.max_num_msg h.cur_first_msg h.cur_num_msg n))),
  advance_after_wake v n,
)

-- Wake-ups that find the queue empty.
abbrev pub empty_wakes : List Header → List Wake
empty_wakes [] = []
empty_wakes (h ∷ hs) = notified h ∷ empty_wakes hs

abbrev pub AllEmpty : List Header → Type 0
AllEmpty [] = Unit {0}
AllEmpty (h ∷ hs) = (h.cur_num_msg ≡ 0) × AllEmpty hs

wait_blocking_wakes :
    (es : List Header) (h : Header) (cur : ℕ) (buffer : List ℕ) (later : List Wake)
    → AllEmpty es
    → 0 < h.cur_num_msg
    → wait_blocking cur buffer (empty_wakes es ++ notified h ∷ later)
      ≡ pick h (add64 h.cur_first_msg 1) buffer
unfolding wait_blocking
wait_blocking_wakes [] h cur buffer later a n = ground arith
wait_blocking_wakes (e ∷ es) h cur buffer later a n =
    rw a.0 (wait_blocking_wakes es h (add64 e.cur_first_msg 1) buffer later a.1 n)

wait_timed_wakes :
    (es : List Header) (h : Header) (cur : ℕ) (buffer : List ℕ) (later : List Wake)
    → AllEmpty es
    → 0 < h.cur_num_msg
    → wait_timed cur buffer (empty_wakes es ++ notified h ∷ later)
      ≡ pick h (add64 h.cur_first_msg 1) buffer
unfolding wait_timed
wait_timed_wakes [] h cur buffer later a n = ground arith
wait_timed_wakes (e ∷ es) h cur buffer later a n =
    rw a.0 (wait_timed_wakes es h (add64 e.cur_first_msg 1) buffer later a.1 n)

-- A reader that has to wait sleeps through the wake-ups at which the queue is empty, and takes the
-- newest message at the first other one, whatever it has had before; then nothing is new to it.
pub wakeup_takes_newest :
    (block : Block) (h : Header) {h' : Header} (cur : ℕ) (buffer : List ℕ) (es : List Header)
    (later : List Wake)
    → block ≢ non_blocking
    → h.max_msg_size ≤ length buffer
    → (is_empty h || cur == h.cur_first_msg) ≡ true
    → AllEmpty es
    → IsValid h'
    → 0 < h'.cur_num_msg
    → let (r, cur') = do_receive block h cur buffer (empty_wakes es ++ notified h' ∷ later) in
      (delivered r ≡ some (get_or (contents h') 0 [])) × (lag h' cur' ≡ 0)
unfolding wait
wakeup_takes_newest non_blocking h cur buffer es later ne b e a v n = absurd (ne refl)
wakeup_takes_newest blocking h {h'} cur buffer es later ne b e a v n =
    rw
      (
        do_receive_quiet blocking h cur buffer (empty_wakes es ++ notified h' ∷ later) b e,
        wait_blocking_wakes es h' cur buffer later a n,
      )
      ((pick_after_wake buffer v n).0, rw (pick_after_wake buffer v n).1 (lag_first v))
wakeup_takes_newest timed h {h'} cur buffer es later ne b e a v n =
    rw
      (
        do_receive_quiet timed h cur buffer (empty_wakes es ++ notified h' ∷ later) b e,
        wait_timed_wakes es h' cur buffer later a n,
      )
      ((pick_after_wake buffer v n).0, rw (pick_after_wake buffer v n).1 (lag_first v))
