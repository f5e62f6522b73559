-- ===== src/Queue/Proto.antt =====
-- `ProtoQueue` of ipc/queue.hpp over the queue in shared memory, through `Queue::send` and
-- `Queue::receive` of ipc/queue.cc. Protocol buffers are a parameter.
pub mod InOrder
mod Tests
use boat.Prelude.{
  ℕ, zero, suc, ◌/◌, ◌%◌, Bool, Option, none, some, List, [], ◌∷◌, leb, if◌then◌else◌, length, take,
}
use boat.MessageQueue.{
  Header, Sent, sent, size_error, do_send, Received, received, nothing, bad_size, asleep, timed,
  Wake, do_receive,
}

-- `BUF_SIZE`, and the number of messages that the constructor asks for.
abbrev pub buf_size : ℕ
buf_size = 1024

abbrev pub queue_len : ℕ
queue_len = 20

-- `msg::LogEntry` as a queue fills it in: the time, and the one field of the queue.
pub record LogEntry {ℓ} (T : Type ℓ) : Type ℓ where
  pub secs : ℕ
  pub nanos : ℕ
  pub content : T

-- `SerializeToArray` without its check of the size, and `ParseFromArray`.
pub record Format {ℓ} (T : Type ℓ) : Type ℓ where
  pub serialize : LogEntry T → List ℕ
  pub parse : List ℕ → LogEntry T

-- What a call of `receive` comes to: a message, false, an exception, or it still waits.
pub data Incoming {ℓ} (T : Type ℓ) : Type ℓ where
  message : T → Incoming T
  no_message thrown waiting : Incoming T

module _ {ℓ} {T : Type ℓ} (format : Format T) where
  open format use {serialize, parse}

  -- The entry for a message that is sent `now` nanoseconds after the start of the clock.
  pub stamped : ℕ → T → LogEntry T
  stamped now msg = record { secs = now / 1000000000; nanos = now % 1000000000; content = msg }

  -- `none` if the program ends: an entry is too long for the buffer, or the queue refuses it.
  pub proto_send : ℕ → T → Header → Option Header
  unfolding stamped
  proto_send now msg h =
      let buffer = serialize (stamped now msg) in
      if leb (length buffer) buf_size
      then elim (do_send h buffer) [ sent h' ↦ some h' | size_error ↦ none ]
      else none

  abbrev pub parsed : Received → Incoming T
  parsed (received buffer rcvd) = message (parse (take rcvd buffer)).content
  parsed nothing = no_message
  parsed bad_size = thrown
  parsed asleep = waiting

  -- `receive`, which waits for a second at most, with what is in `buffer_`.
  pub proto_receive : Header → ℕ → List ℕ → List Wake → Incoming T × ℕ
  proto_receive h m_cur_msg buffer wakes =
      let (r, cur) = do_receive timed h m_cur_msg buffer wakes in (parsed r, cur)
