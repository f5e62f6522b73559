-- ===== src/Queue/Proto/Tests.antt =====
-- Instances for `ProtoQueue` (ipc/queue.hpp).
use boat.Prelude.{
  ℕ, ◌+◌, ◌*◌, ◌/◌, ◌≤◌, ◌≡◌, refl, List, [], ◌∷◌, some, arith, replicate, length, length-replicate,
}
use boat.MessageQueue.{Header, Platform, construct, timeout}
use boat.MessageQueue.Window.{IsValid}
use boat.MessageQueue.Layout.{IsSound, Fits, construct-IsValid}
use boat.MessageQueue.Receive.{lag}
use boat.Queue.Proto.{LogEntry, Format, message, queue_len, buf_size}
use boat.Queue.Proto.InOrder.{proto_send_all, proto_receive_all, messages_arrive}

-- A platform of 8-byte pointers, sizes and alignments.
abbrev platform : Platform
platform = record {
  header_size = 120;
  msg_header_size = 8;
  pointer_size = 8;
  msg_hdr_align = 8;
  index_align = 8;
  user_offset = 16;
  rounded_size = λ n align. (n + 7) / 8 * 8;
}

platform-IsSound : IsSound platform
platform-IsSound = record { rounded_up = λ n align h. omega arith; header_pos = omega arith }

fits : Fits platform queue_len buf_size
fits = omega arith

abbrev fresh : Header
fresh = construct platform 4096 queue_len buf_size (λ a. record { len = 0; bytes = [] })

fresh-IsValid : IsValid fresh
fresh-IsValid = (construct-IsValid platform platform-IsSound fits 4096 _ (λ a. omega arith)).0

-- Numbers, written as the three fields of an entry.
abbrev read_entry : List ℕ → LogEntry ℕ
read_entry (s ∷ n ∷ c ∷ bytes) = record { secs = s; nanos = n; content = c }
read_entry bytes = record { secs = 0; nanos = 0; content = 0 }

abbrev numbers : Format ℕ
numbers = record { serialize = λ e. e.secs ∷ e.nanos ∷ e.content ∷ []; parse = read_entry }

abbrev space : List ℕ
space = replicate buf_size 0

room : buf_size ≤ length space
room = omega (arith, length-replicate {A = ℕ} buf_size 0)

messages_arrive_example :
    (h' : Header) × (proto_send_all numbers ((1500000000, 7) ∷ (2000000000, 8) ∷ []) fresh
      ≡ some h')
    × ((proto_receive_all numbers ((space, []) ∷ (space, timeout ∷ []) ∷ []) h' 0).0
        ≡ message 7 ∷ message 8 ∷ [])
    × (lag h' (proto_receive_all numbers ((space, []) ∷ (space, timeout ∷ []) ∷ []) h' 0).1 ≡ 0)
unfolding construct
messages_arrive_example =
    messages_arrive numbers ((1500000000, 7) ∷ (2000000000, 8) ∷ [])
      ((space, []) ∷ (space, timeout ∷ []) ∷ []) 0 (λ e. refl) fresh-IsValid refl
      (omega arith, (omega arith, tt)) (room, (room, tt)) refl (omega arith) (omega arith) refl
