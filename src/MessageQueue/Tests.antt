-- ===== src/MessageQueue/Tests.antt =====
-- Runs and instances for the queue in shared memory (ipc/message_queue.hpp).
use boat.Prelude.{ℕ, ◌+◌, ◌*◌, ◌/◌, ◌≤◌, ◌<◌, ◌≡◌, refl, List, [], ◌∷◌, some, arith}
use boat.MessageQueue.{
  Message, Header, Platform, non_blocking, nothing, received, slot, construct, insert, do_send,
  do_receive, r_hdr_size, r_index_size, r_max_msg_size, get_mem_size,
}
use boat.MessageQueue.Window.{IsValid, contents}
use boat.MessageQueue.Layout.{IsSound, Fits, messages_apart, construct-IsValid}
use boat.MessageQueue.Send.{insert-IsValid, do_send_refines, view, send_contract}
use boat.MessageQueue.Receive.{lag, delivered, receive_contract, try_receive_refines}
use boat.MessageQueue.Order.{send_all, receive_all, sends_arrive_in_order, full_lap_is_lost}

-- A platform of 8-byte pointers, sizes and alignments.
abbrev platform : Platform
platform = record {
  header_size = 120;
  msg_header_size = 8;
  pointer_size = 8;
  msg_hdr_align = 8;
  index_align = 8;
  user_offset = 16;
  rounded_size = λ n align. (n + 7) / 8 * 8;
}

platform-IsSound : IsSound platform
platform-IsSound = record { rounded_up = λ n align h. omega arith; header_pos = omega arith }

-- Three messages of up to five bytes.
fits : Fits platform 3 5
fits = omega arith

abbrev zeroed : ℕ → Message
zeroed a = record { len = 0; bytes = [] }

abbrev fresh : Header
fresh = construct platform 4096 3 5 zeroed

messages_apart_example :
    (4096 + 120 + 24 ≤ slot fresh 1)
    × (slot fresh 1 + 8 + 5 + 16 ≤ 4096 + get_mem_size platform 5 3)
    × ((j : ℕ) → 1 < j → j < 3 → slot fresh 1 + 8 + 5 ≤ slot fresh j)
messages_apart_example = messages_apart platform platform-IsSound fits 4096 zeroed 1 (omega arith)

fresh-IsValid : IsValid fresh × (contents fresh ≡ [])
fresh-IsValid = construct-IsValid platform platform-IsSound fits 4096 zeroed (λ a. omega arith)

abbrev hello : List ℕ
hello = 104 ∷ 105 ∷ []

abbrev run : List (List ℕ)
run = hello ∷ (7 ∷ []) ∷ []

abbrev full_run : List (List ℕ)
full_run = hello ∷ (7 ∷ []) ∷ [] ∷ []

abbrev space : List ℕ
space = 0 ∷ 0 ∷ 0 ∷ 0 ∷ 0 ∷ []

-- Four sends into three places: a reader at position 0 is a full lap and one message behind, and
-- gets the last message only.
overflow :
    (do_receive non_blocking
      (insert (insert (insert (insert fresh hello) (7 ∷ [])) []) (8 ∷ []))
      0
      space
      [])
    ≡ (received (8 ∷ 0 ∷ 0 ∷ 0 ∷ 0 ∷ []) 1, 2)
unfolding do_receive insert construct r_hdr_size r_index_size r_max_msg_size
overflow = refl

do_send_refines_example : view (do_send fresh hello) ≡ send_contract 3 5 [] hello
unfolding construct
do_send_refines_example = do_send_refines hello fresh-IsValid.0

abbrev one-IsValid : IsValid (insert fresh hello)
one-IsValid = insert-IsValid hello fresh-IsValid.0

try_receive_refines_example :
    let (r, cur') = do_receive non_blocking (insert fresh hello) 0 space [] in
    ((delivered r
        ≡ (receive_contract (contents (insert fresh hello)) (lag (insert fresh hello) 0)).0)
      × (lag (insert fresh hello) cur'
          ≡ (receive_contract (contents (insert fresh hello)) (lag (insert fresh hello) 0)).1))
    × (cur' < (insert fresh hello).max_num_msg)
unfolding insert construct
try_receive_refines_example = try_receive_refines 0 space [] one-IsValid (omega arith) (omega arith)

sends_arrive_in_order_example :
    (h' : Header) × (send_all fresh run ≡ some h')
    × ((receive_all 2 h' 0 space).0 ≡ some hello ∷ some (7 ∷ []) ∷ [])
    × (lag h' (receive_all 2 h' 0 space).1 ≡ 0)
unfolding construct
sends_arrive_in_order_example =
    sends_arrive_in_order run 0 space fresh-IsValid.0 (omega arith) (omega arith) (omega arith) refl
      (omega arith)

full_lap_is_lost_example :
    (h' : Header) × (send_all fresh full_run ≡ some h')
    × (contents h' ≡ [] ∷ (7 ∷ []) ∷ hello ∷ [])
    × (do_receive non_blocking h' 0 space [] ≡ (nothing, 0))
unfolding construct
full_lap_is_lost_example =
    full_lap_is_lost full_run 0 space [] fresh-IsValid.0 (omega arith) (omega arith) (omega arith)
      refl refl
