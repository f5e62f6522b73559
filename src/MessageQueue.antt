-- ===== src/MessageQueue.antt =====
-- ipc/message_queue.hpp: the queue in shared memory by which the processes talk. Every reader sees
-- every message: a reader keeps its own position, and a writer overwrites the oldest message when
-- the queue is full. What one lock protects is one step; the condition variable is an environment
-- that hands a waiting reader the state of the header at each wake-up.
pub mod Layout
pub mod Window
pub mod Send
pub mod Receive
pub mod Order
mod Tests
use boat.Prelude.{
  ℕ, zero, suc, ◌+◌, ◌-◌, ◌*◌, ◌^◌, Bool, true, false, not, ◌&&◌, ◌||◌, List, [], ◌∷◌, ◌++◌, ltb,
  leb, ◌==◌, if◌then◌else◌, length, get_or, take, drop, add64, sub64, mul64,
}

-- `msg_hdr_t`, with the bytes of the buffer behind it.
pub record Message : Type 0 where
  pub len : ℕ
  pub bytes : List ℕ

-- `mq_hdr_t`. `index` is the array at `mp_index` of pointers to the preallocated messages, and
-- `memory` what a pointer points to.
pub record Header : Type 0 where
  pub index : List ℕ
  pub memory : ℕ → Message
  pub max_num_msg : ℕ
  pub max_msg_size : ℕ
  pub cur_num_msg : ℕ
  pub cur_first_msg : ℕ

-- What the memory layout takes from the compiler and from Boost: the sizes and alignments of the
-- types, `get_rounded_size`, and `ManagedOpenOrCreateUserOffset`.
pub record Platform : Type 0 where
  pub header_size : ℕ
  pub msg_header_size : ℕ
  pub pointer_size : ℕ
  pub msg_hdr_align : ℕ
  pub index_align : ℕ
  pub user_offset : ℕ
  pub rounded_size : ℕ → ℕ → ℕ

module _ (p : Platform) where
  open p use {
    header_size, msg_header_size, pointer_size, msg_hdr_align, index_align, user_offset,
    rounded_size,
  }

  pub r_hdr_size : ℕ
  r_hdr_size = rounded_size header_size index_align

  pub r_index_size : ℕ → ℕ
  r_index_size max_num_msg = rounded_size (mul64 max_num_msg pointer_size) msg_hdr_align

  pub r_max_msg_size : ℕ → ℕ
  r_max_msg_size max_msg_size = add64 (rounded_size max_msg_size msg_hdr_align) msg_header_size

  pub get_mem_size : ℕ → ℕ → ℕ
  get_mem_size max_msg_size max_num_msg =
      add64
        (add64 (add64 r_hdr_size (r_index_size max_num_msg))
          (mul64 max_num_msg (r_max_msg_size max_msg_size)))
        user_offset

  -- The loop of `initialize_memory`: `rounds` pointers, `stride` bytes apart.
  pub fill_index : ℕ → ℕ → ℕ → List ℕ
  fill_index stride zero msg_hdr = []
  fill_index stride (suc rounds) msg_hdr = msg_hdr ∷ fill_index stride rounds (msg_hdr + stride)

  pub initialize_memory : ℕ → ℕ → ℕ → List ℕ
  unfolding fill_index
  initialize_memory this max_num_msg max_msg_size =
      fill_index (r_max_msg_size max_msg_size) max_num_msg
        (this + r_hdr_size + r_index_size max_num_msg)

  -- The constructor of `mq_hdr_t` at the address `this`, over the bytes found there.
  unfoldable pub construct : ℕ → ℕ → ℕ → (ℕ → Message) → Header
  unfolding initialize_memory
  construct this max_num_msg max_msg_size memory = record {
    index = initialize_memory this max_num_msg max_msg_size;
    memory = memory;
    max_num_msg = max_num_msg;
    max_msg_size = max_msg_size;
    cur_num_msg = 0;
    cur_first_msg = 0;
  }

abbrev pub is_full : Header → Bool
is_full h = h.cur_num_msg == h.max_num_msg

abbrev pub is_empty : Header → Bool
is_empty h = h.cur_num_msg == 0

abbrev pub free_top_msg : Header → Header
free_top_msg h = record h { cur_num_msg = sub64 h.cur_num_msg 1 }

abbrev pub end_pos : Header → ℕ
end_pos h =
    let space_until_bufend = sub64 h.max_num_msg h.cur_first_msg in
    if ltb h.cur_num_msg space_until_bufend
    then add64 h.cur_first_msg h.cur_num_msg
    else sub64 h.cur_num_msg space_until_bufend

abbrev pub end_index : Header → ℕ
end_index h = if end_pos h == 0 then sub64 h.max_num_msg 1 else sub64 (end_pos h) 1

-- The pointer at a position of the index.
abbrev pub slot : Header → ℕ → ℕ
slot h i = get_or h.index i 0

abbrev pub insert_at_begin : Header → Header
insert_at_begin h = record h {
  cur_first_msg = sub64 (if h.cur_first_msg == 0 then h.max_num_msg else h.cur_first_msg) 1;
  cur_num_msg = add64 h.cur_num_msg 1;
}

-- `memcpy(target, source, n)`, for `n` up to the length of `source`.
abbrev pub memcpy : List ℕ → List ℕ → ℕ → List ℕ
memcpy target source n = take n source ++ drop n target

abbrev pub update : (ℕ → Message) → ℕ → Message → ℕ → Message
update memory a m b = if b == a then m else memory b

-- A full queue gives up its oldest message.
abbrev pub make_room : Header → Header
make_room h = if is_full h then free_top_msg h else h

-- The length and the bytes that `do_send` copies into a message; the size of `buffer` is its
-- length.
abbrev pub filled : Message → List ℕ → Message
filled m buffer = record { len = length buffer; bytes = memcpy m.bytes buffer (length buffer) }

-- The body of `do_send` under the lock.
pub insert : Header → List ℕ → Header
insert h buffer =
    let q = insert_at_begin (make_room h) in
    let a = slot q q.cur_first_msg in
    record q { memory = update q.memory a (filled (q.memory a) buffer) }

pub data Sent : Type 0 where
  sent : Header → Sent
  size_error : Sent

pub do_send : Header → List ℕ → Sent
unfolding insert
do_send h buffer = if ltb h.max_msg_size (length buffer) then size_error else sent (insert h buffer)

-- `enum block_t`.
pub data Block : Type 0 where
  blocking timed non_blocking : Block

-- How a wait on `m_cond_recv` ends: with the lock held again and the header as the other processes
-- have left it, or at the time limit (which only `timed_wait` has).
pub data Wake : Type 0 where
  notified : Header → Wake
  timeout : Wake

-- What `do_receive` does: it fills the buffer and sets `recvd_size` (true), returns false, throws,
-- or is still waiting when the given wake-ups have been used up.
pub data Received : Type 0 where
  received : List ℕ → ℕ → Received
  nothing : Received
  bad_size : Received
  asleep : Received

-- The move of `m_cur_msg` to the next message, older positions being clipped to the oldest one.
pub advance : Header → ℕ → ℕ
advance h m_cur_msg =
    let cur = if m_cur_msg == 0 then sub64 h.max_num_msg 1 else sub64 m_cur_msg 1 in
    if leb h.cur_first_msg (end_index h)
    then (if ltb (end_index h) cur || ltb cur h.cur_first_msg then end_index h else cur)
    else (if ltb (end_index h) cur && ltb cur h.cur_first_msg then end_index h else cur)

-- The part of `do_receive` behind the waiting: the new `m_cur_msg` and the message under it.
pub pick : Header → ℕ → List ℕ → Received × ℕ
unfolding advance
pick h m_cur_msg buffer =
    let cur = advance h m_cur_msg in
    let top_msg = h.memory (slot h cur) in
    (received (memcpy buffer top_msg.bytes top_msg.len) top_msg.len, cur)

-- The `do … while (is_empty())` loop of a blocking receive.
pub wait_blocking : ℕ → List ℕ → List Wake → Received × ℕ
unfolding pick
wait_blocking m_cur_msg buffer [] = (asleep, m_cur_msg)
wait_blocking m_cur_msg buffer (timeout ∷ wakes) = wait_blocking m_cur_msg buffer wakes
wait_blocking m_cur_msg buffer (notified h ∷ wakes) =
    let again = wait_blocking (add64 h.cur_first_msg 1) buffer wakes in
    if is_empty h then again else pick h (add64 h.cur_first_msg 1) buffer

-- The same with a time limit, at which the call returns false.
pub wait_timed : ℕ → List ℕ → List Wake → Received × ℕ
unfolding pick
wait_timed m_cur_msg buffer [] = (asleep, m_cur_msg)
wait_timed m_cur_msg buffer (timeout ∷ wakes) = (nothing, m_cur_msg)
wait_timed m_cur_msg buffer (notified h ∷ wakes) =
    let again = wait_timed (add64 h.cur_first_msg 1) buffer wakes in
    if is_empty h then again else pick h (add64 h.cur_first_msg 1) buffer

pub wait : Block → ℕ → List ℕ → List Wake → Received × ℕ
unfolding wait_blocking wait_timed
wait non_blocking m_cur_msg buffer wakes = (nothing, m_cur_msg)
wait blocking m_cur_msg buffer wakes = wait_blocking m_cur_msg buffer wakes
wait timed m_cur_msg buffer wakes = wait_timed m_cur_msg buffer wakes

-- `do_receive`, with the header as it is when the lock is taken. The result is what the call
-- returns and the reader's `m_cur_msg` behind it.
pub do_receive : Block → Header → ℕ → List ℕ → List Wake → Received × ℕ
unfolding wait pick
do_receive block h m_cur_msg buffer wakes =
    if ltb (length buffer) h.max_msg_size
    then (bad_size, m_cur_msg)
    else if is_empty h || m_cur_msg == h.cur_first_msg
    then wait block m_cur_msg buffer wakes
    else pick h m_cur_msg buffer
