-- ===== src/Util/Log.antt =====
-- The log file of util/logger.cc, as `Logger` writes it and as `LogReplay` (util/log-replay.cc) and
-- `ReadFile` read it: a file is the list of its bytes.
pub mod Roundtrip
mod Tests
use boat.Prelude.{
  ℕ, zero, suc, ◌+◌, ◌*◌, ◌/◌, ◌%◌, ◌<◌, List, [], ◌∷◌, ◌++◌, Option, none, some, ltb,
  if◌then◌else◌, length, take, drop, u16, u64, Bool, true, false, not,
}
use boat.Prelude.Bytes.{bytes_value, to_bytes}

abbrev pub max_buf : ℕ
max_buf = 1024

-- What the constructor of `Logger` writes.
pub new_log : ℕ → List ℕ
new_log start_time = to_bytes 8 (u64 start_time)

-- What a handler appends for one message, with the lock on the file held.
pub log_message : List ℕ → List ℕ → List ℕ
log_message out buf = out ++ (to_bytes 2 (u16 (length buf)) ++ buf)

-- The messages of all handlers, in the order in which they got the lock.
pub log_messages : List ℕ → List (List ℕ) → List ℕ
log_messages out [] = out
log_messages out (buf ∷ bufs) = log_messages (log_message out buf) bufs

-- `input_.read(_, n)`: the bytes and the rest of the file, or the end of the file.
pub read : List ℕ → ℕ → Option (List ℕ × List ℕ)
read input n = if ltb (length input) n then none else some (take n input, drop n input)

-- The time at the head of the file.
pub read_start_time : List ℕ → Option (ℕ × List ℕ)
read_start_time input = elim (read input 8) [
  | none ↦ none
  | some (bytes, rest) ↦ some (bytes_value bytes, rest)
]

-- A return of -1, a failed CHECK, or the message and the rest of the file.
pub data Entry : Type 0 where
  end_of_file : Entry
  too_long : ℕ → Entry
  message : List ℕ → List ℕ → Entry

pub read_log_message : List ℕ → ℕ → Entry
read_log_message input buf_len = elim (read input 2) [
  | none ↦ end_of_file
  | some (bytes, input') ↦
      let len = bytes_value bytes in
      if ltb len buf_len
      then elim (read input' len) [ none ↦ end_of_file | some (buf, rest) ↦ message buf rest ]
      else too_long len
]

-- The messages up to the end of the file or to one that stops the program, and whether the end was
-- reached. Each message takes two bytes at least, so the length of the file is fuel enough.
pub read_all : ℕ → List ℕ → List (List ℕ) × Bool
read_all zero input = ([], false)
read_all (suc fuel) input = elim (read_log_message input max_buf) [
  | end_of_file ↦ ([], true)
  | too_long len ↦ ([], false)
  | message buf rest ↦ let (bufs, ended) = read_all fuel rest in (buf ∷ bufs, ended)
]
