-- ===== src/MessageQueue/Layout.antt =====
-- `get_mem_size` and `initialize_memory` of ipc/message_queue.hpp: the preallocated messages lie in
-- the shared memory, apart from each other.
use boat.Prelude.{
  ℕ, zero, suc, ◌+◌, ◌*◌, ◌^◌, ◌≤◌, ◌<◌, ◌≡◌, refl, ap, ◌∙◌, [], length, get_or, arith,
}
use boat.MessageQueue.{
  Message, Platform, slot, r_hdr_size, r_index_size, r_max_msg_size, get_mem_size, fill_index,
  construct,
}
use boat.MessageQueue.Window.{IsValid, contents}

module _ (p : Platform) where
  open p use {
    header_size, msg_header_size, pointer_size, msg_hdr_align, index_align, user_offset,
    rounded_size,
  }

  -- `get_rounded_size` rounds up, where the sum does not overflow; a message header has a size.
  pub record IsSound : Type 0 where
    pub rounded_up : (n align : ℕ) → n < 2 ^ 63 → n ≤ rounded_size n align
    pub header_pos : 0 < msg_header_size

  -- The size of the queue is a number of bytes that `size_t` can hold.
  pub record Fits (max_num_msg max_msg_size : ℕ) : Type 0 where
    pub some_message : 0 < max_num_msg
    pub num_small : max_num_msg < 2 ^ 63
    pub size_small : max_msg_size < 2 ^ 63
    pub header_small : header_size < 2 ^ 63
    pub pointers_small : max_num_msg * pointer_size < 2 ^ 63
    pub total_small :
        rounded_size header_size index_align
          + rounded_size (max_num_msg * pointer_size) msg_hdr_align
          + max_num_msg * (rounded_size max_msg_size msg_hdr_align + msg_header_size)
          + user_offset
        < 2 ^ 64

  length-fill_index : (stride n start : ℕ) → length (fill_index p stride n start) ≡ n
  unfolding fill_index
  length-fill_index stride zero start = refl
  length-fill_index stride (suc n) start = ap suc (length-fill_index stride n (start + stride))

  get_or-fill_index :
      (stride n start i : ℕ) → i < n → get_or (fill_index p stride n start) i 0 ≡ start + i * stride
  unfolding fill_index
  get_or-fill_index stride zero start i h = absurd (omega arith)
  get_or-fill_index stride (suc n) start zero h = omega arith
  get_or-fill_index stride (suc n) start (suc i) h =
      get_or-fill_index stride n (start + stride) i (omega arith) ∙ omega arith

  -- The distance of two messages, and the bytes of the index.
  abbrev pub stride : ℕ → ℕ
  stride max_msg_size = rounded_size max_msg_size msg_hdr_align + msg_header_size

  abbrev pub index_bytes : ℕ → ℕ
  index_bytes max_num_msg = rounded_size (max_num_msg * pointer_size) msg_hdr_align

  at_least_one : (n k : ℕ) → 0 < n → k ≤ n * k
  at_least_one zero k h = absurd (omega arith)
  at_least_one (suc n) k h = omega arith

  stride_lem :
      {max_num max_size : ℕ} → Fits max_num max_size → r_max_msg_size p max_size ≡ stride max_size
  unfolding r_max_msg_size
  stride_lem {max_num} {max_size} f =
      omega (arith, f.total_small, at_least_one max_num (stride max_size) f.some_message)

  index_lem :
      {max_num max_size : ℕ} → Fits max_num max_size → r_index_size p max_num ≡ index_bytes max_num
  unfolding r_index_size
  index_lem f = ap (λ n. rounded_size n msg_hdr_align) (omega (arith, f.pointers_small))

  -- Under `Fits` the size is computed with no wrap.
  pub mem_size_lem :
      {max_num max_size : ℕ}
      → Fits max_num max_size
      → get_mem_size p max_size max_num
        ≡ rounded_size header_size index_align
          + index_bytes max_num
          + max_num * stride max_size
          + user_offset
  unfolding get_mem_size r_hdr_size
  mem_size_lem {max_num} {max_size} f =
      rw (stride_lem f, index_lem f) (omega (arith, f.total_small))

  slot_lem :
      {max_num max_size : ℕ}
      → Fits max_num max_size
      → (this : ℕ) (memory : ℕ → Message) (i : ℕ) → i < max_num
      → slot (construct p this max_num max_size memory) i
        ≡ this + rounded_size header_size index_align + index_bytes max_num + i * stride max_size
  unfolding construct r_hdr_size
  slot_lem {max_num} {max_size} f this memory i h =
      rw (stride_lem f, index_lem f) (get_or-fill_index (stride max_size) max_num _ i h)

  -- The product laws that the addresses need.
  rows : (k i j : ℕ) → i < j → i * k + k ≤ j * k
  rows k i j h = grind arith

  -- Each preallocated message, of the full size, lies behind the header and the index and inside
  -- the shared memory, and in front of the next ones.
  pub messages_apart :
      {max_num max_size : ℕ}
      → IsSound
      → Fits max_num max_size
      → (this : ℕ) (memory : ℕ → Message) (i : ℕ) → i < max_num
      → let h = construct p this max_num max_size memory in
        (this + header_size + max_num * pointer_size ≤ slot h i)
        × (slot h i + msg_header_size + max_size + user_offset
            ≤ this + get_mem_size p max_size max_num)
        × ((j : ℕ) → i < j → j < max_num → slot h i + msg_header_size + max_size ≤ slot h j)
  messages_apart {max_num} {max_size} s f this memory i h = (
    rw (slot_lem f this memory i h) (omega (arith, header, pointers)),
    rw (slot_lem f this memory i h, mem_size_lem f)
        (omega (arith, size, rows (stride max_size) i max_num h)),
    λ j l g.
        rw (slot_lem f this memory i h, slot_lem f this memory j g)
          (omega (arith, size, rows (stride max_size) i j l)),
  )
    where
      header : header_size ≤ rounded_size header_size index_align
      header = s.rounded_up _ _ f.header_small

      pointers : max_num * pointer_size ≤ index_bytes max_num
      pointers = s.rounded_up _ _ f.pointers_small

      size : max_size ≤ rounded_size max_size msg_hdr_align
      size = s.rounded_up _ _ f.size_small

  -- A new queue is valid and empty, in memory that holds no message longer than its bytes (fresh
  -- shared memory is zero).
  pub construct-IsValid :
      {max_num max_size : ℕ}
      → IsSound
      → Fits max_num max_size
      → (this : ℕ) (memory : ℕ → Message) → ((a : ℕ) → (memory a).len ≤ length (memory a).bytes)
      → IsValid (construct p this max_num max_size memory)
        × (contents (construct p this max_num max_size memory) ≡ [])
  unfolding construct
  construct-IsValid {max_num} {max_size} s f this memory w = (
    record {
      nonempty = f.some_message;
      small = f.num_small;
      pointers = length-fill_index _ max_num _;
      count_in = omega arith;
      first_in = f.some_message;
      distinct = λ i j l g e. absurd (
          omega (arith, (messages_apart s f this memory i (omega arith)).2 j l g, s.header_pos, e));
      whole = w;
    },
    refl,
  )
