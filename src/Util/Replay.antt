-- ===== src/Util/Replay.antt =====
-- `LogReplay::Run` of util/log-replay.cc, one message of the log at a time. A queue is named by a
-- number, and the empty name is 0. What parses, handles and moves messages are protocol buffers,
-- and the clock tells when a sleep ends: these are parameters.
pub mod Message
pub mod Order
mod Tests
use boat.Prelude.{
  ℕ, zero, suc, ◌<◌, ◌≤◌, List, [], ◌∷◌, ◌++◌, Option, none, some, Bool, true, false, not, ◌&&◌,
  ltb, leb, ◌==◌, if◌then◌else◌, length,
}

-- A field that is set in an entry: the time in nanoseconds, or the message of a queue.
pub data Field : Type 0 where
  time : ℕ → Field
  content : ℕ → Field

pub record World : Type 0 where
  -- `LogEntry::ParseFromArray` and `ListFields`.
  pub list_fields : List ℕ → List Field
  -- `queue_process_`.
  pub process : ℕ → List ℕ → List ℕ
  -- Whether a name is a field of `LogEntry`, and an entry with a field moved to another.
  pub is_field : ℕ → Bool
  pub moved : ℕ → ℕ → List ℕ → List ℕ
  -- `rename_` and `default_ignore_`.
  pub rename : ℕ → Option ℕ
  pub default_ignore : Bool
  -- Whether a time is before `FLAGS_start_log_replay`.
  pub before_start : ℕ → Bool
  -- The time after sleeping until a time.
  pub wake : ℕ → ℕ

pub record Replay : Type 0 where
  pub msg_time : ℕ
  pub cur_time : ℕ
  pub queue_name : ℕ
  -- `queues_`: the queue that an entry of the map holds, or 0 for a null pointer.
  pub queues : ℕ → Option ℕ

pub record Sent : Type 0 where
  pub queue : ℕ
  pub bytes : List ℕ
  pub at : ℕ

-- A failed CHECK or LOG(FATAL) ends the program.
pub data Outcome : Type 0 where
  fatal : Outcome
  went_on : Replay → List Sent → Outcome

module _ (w : World) where
  open w use {list_fields, process, is_field, moved, rename, default_ignore, before_start, wake}

  abbrev pub put : (ℕ → Option ℕ) → ℕ → ℕ → ℕ → Option ℕ
  put queues q target k = if k == q then some target else queues k

  -- The queue that a name is replayed on.
  unfoldable pub target : ℕ → ℕ
  target q = elim (rename q) [ none ↦ if default_ignore then 0 else q | some q' ↦ q' ]

  -- The body of the loop over the fields.
  pub see_field : Field → Replay → List ℕ → Replay × List ℕ
  see_field (time t) r buf = (record r { msg_time = t }, buf)
  see_field (content q) r buf =
      let buf' = process q buf in
      elim (r.queues q) [
        | some _ ↦ (record r { queue_name = q }, buf')
        | none ↦
            if target q == 0
            then (record r { queue_name = q }, buf')
            else (record r { queue_name = q; queues = put r.queues q (target q) }, buf')
      ]

  pub see_fields : List Field → Replay → List ℕ → Replay × List ℕ
  see_fields [] r buf = (r, buf)
  see_fields (f ∷ fs) r buf = let (r', buf') = see_field f r buf in see_fields fs r' buf'

  -- Sending on `queues_[queue_name]`, which makes a null entry if there is none.
  pub send_on : Replay → List ℕ → Outcome
  send_on r buf = if r.queue_name == 0 then went_on r [] else elim (r.queues r.queue_name) [
    | none ↦ went_on (record r { queues = put r.queues r.queue_name 0 }) []
    | some q ↦
        went_on r (if q == 0 then [] else (record { queue = q; bytes = buf; at = r.cur_time } ∷ []))
  ]

  -- The move to the field of the new name, and the sending.
  pub rename_and_send : Replay → List ℕ → Outcome
  rename_and_send r buf = elim (rename r.queue_name) [
    | none ↦ send_on r buf
    | some q' ↦
        if q' == r.queue_name
        then send_on r buf
        else if is_field r.queue_name && is_field q'
        then send_on r (moved r.queue_name q' buf)
        else fatal
  ]

  pub replay_message : Replay → List ℕ → Outcome
  replay_message r buf =
      let fields = list_fields buf in
      if leb (length fields) 2
      then (let (r', buf') = see_fields fields r buf in
          if before_start r'.msg_time
          then went_on r' []
          else rename_and_send
              (if ltb r'.cur_time r'.msg_time
                then record r' { cur_time = wake r'.msg_time }
                else r')
              buf')
      else fatal

  -- The messages of the log one after another, what was sent so far, and whether the program is
  -- still running.
  pub replay : List (List ℕ) → Replay → List Sent × Bool
  replay [] r = ([], true)
  replay (buf ∷ bufs) r = elim (replay_message r buf) [
    | fatal ↦ ([], false)
    | went_on r' sent ↦ let (rest, running) = replay bufs r' in (sent ++ rest, running)
  ]
