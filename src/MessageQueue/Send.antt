-- ===== src/MessageQueue/Send.antt =====
-- `do_send` of ipc/message_queue.hpp against its contract: the queue keeps the last `max_num_msg`
-- messages.
use boat.Prelude.{
  length-append, ◌≤◌, ℕ, suc, ◌+◌, ◌-◌, ◌%◌, ◌<◌, min, ◌≡◌, refl, sym, ap, ap₂, ◌∙◌, ◌≡⟨◌⟩◌, ◌∎,
  subst, ltb, Option, none, some, if◌then◌else◌, List, ◌∷◌, length, take, drop, take-length,
  take-append_left, Bool-cases, inl, inr, arith, mod_cases,
}
use boat.MessageQueue.{
  Message, Header, slot, update, filled, is_full, insert, do_send, Sent, sent, size_error,
}
use boat.MessageQueue.Window.{
  IsValid, payload, window, take-window, contents, window-update, slot-ne,
}

-- What an insertion does to the counters.
pub insert-counters :
    (h : Header) (buffer : List ℕ)
    → IsValid h
    → ((insert h buffer).cur_first_msg ≡ (h.cur_first_msg + (h.max_num_msg - 1)) % h.max_num_msg)
      × ((insert h buffer).cur_num_msg ≡ suc (min h.cur_num_msg (h.max_num_msg - 1)))
unfolding insert
insert-counters h buffer v =
    ground (
      arith,
      v.small,
      mod_cases (h.cur_first_msg + (h.max_num_msg - 1)) h.max_num_msg (omega arith),
    )

pub insert-fields :
    (h : Header) (buffer : List ℕ)
    → ((insert h buffer).index ≡ h.index)
      × ((insert h buffer).max_num_msg ≡ h.max_num_msg)
      × ((insert h buffer).max_msg_size ≡ h.max_msg_size)
unfolding insert
insert-fields h buffer = ground arith

-- The memory is written at the message under the new first position only.
pub insert-memory :
    (h : Header) (buffer : List ℕ)
    → let a = slot h (insert h buffer).cur_first_msg in
      (insert h buffer).memory ≡ update h.memory a (filled (h.memory a) buffer)
unfolding insert
insert-memory h buffer = elim (Bool-cases (is_full h)) [ inl e ↦ rw e | inr e ↦ rw e ]

update-whole :
    (h : Header)
    → ((a : ℕ) → (h.memory a).len ≤ length (h.memory a).bytes)
    → (buffer : List ℕ) (a b : ℕ)
    → (update h.memory a (filled (h.memory a) buffer) b).len
      ≤ length (update h.memory a (filled (h.memory a) buffer) b).bytes
update-whole h w buffer a b = ground (
  arith,
  w b,
  take-length buffer,
  length-append {0} buffer (drop (length buffer) (h.memory a).bytes),
)

pub insert-IsValid : {h : Header} (buffer : List ℕ) → IsValid h → IsValid (insert h buffer)
insert-IsValid {h} buffer v = record {
  nonempty = rw max (v.nonempty);
  small = rw max (v.small);
  pointers = rw (index, max) (v.pointers);
  count_in = rw (max, (insert-counters h buffer v).1) (omega arith);
  first_in = rw (max, (insert-counters h buffer v).0) (omega arith);
  distinct = rw (index, max) (v.distinct);
  whole =
      rw (insert-memory h buffer)
        (update-whole h v.whole buffer (slot h (insert h buffer).cur_first_msg));
}
  where
    index : (insert h buffer).index ≡ h.index
    index = (insert-fields h buffer).0

    max : (insert h buffer).max_num_msg ≡ h.max_num_msg
    max = (insert-fields h buffer).1

payload-filled : (m : Message) (buffer : List ℕ) → payload (filled m buffer) ≡ buffer
payload-filled m buffer =
    rw (take-length buffer) (take-append_left buffer (drop (length buffer) m.bytes))

update_self : (memory : ℕ → Message) (a : ℕ) (m : Message) → update memory a m a ≡ m
update_self memory a m = ground arith

-- The new message under the first position.
pub payload-insert :
    (h : Header) (buffer : List ℕ)
    → payload ((insert h buffer).memory (slot h (insert h buffer).cur_first_msg)) ≡ buffer
payload-insert h buffer = rw (insert-memory h buffer) (
    ap payload (update_self h.memory (slot h f) (filled (h.memory (slot h f)) buffer))
    ∙ payload-filled (h.memory (slot h f)) buffer)
  where
    f : ℕ
    f = (insert h buffer).cur_first_msg

-- An insertion leaves the last `max_num_msg` of the messages, the new one first.
pub insert_refines :
    {h : Header} (buffer : List ℕ)
    → IsValid h
    → contents (insert h buffer) ≡ take h.max_num_msg (buffer ∷ contents h)
insert_refines {h} buffer v =
    contents (insert h buffer)
    ≡⟨ (rw (index, max, (insert-counters h buffer v).1)) ⟩
      payload ((insert h buffer).memory (slot h f))
      ∷ window (insert h buffer).memory h.index h.max_num_msg ((f + 1) % h.max_num_msg) k
    ≡⟨ ap₂ ◌∷◌ (payload-insert h buffer) rest ⟩ buffer ∷ take (h.max_num_msg - 1) (contents h)
    ≡⟨ ap (λ n. take n (buffer ∷ contents h)) (sym take_suc) ⟩
      take h.max_num_msg (buffer ∷ contents h) ∎
  where
    index : (insert h buffer).index ≡ h.index
    index = (insert-fields h buffer).0

    max : (insert h buffer).max_num_msg ≡ h.max_num_msg
    max = (insert-fields h buffer).1

    f : ℕ
    f = (insert h buffer).cur_first_msg

    k : ℕ
    k = min h.cur_num_msg (h.max_num_msg - 1)

    f_in : f < h.max_num_msg
    f_in = rw (insert-counters h buffer v).0 (omega arith)

    back : h.cur_first_msg ≡ (f + 1) % h.max_num_msg
    back = omega (
      arith,
      (insert-counters h buffer v).0,
      mod_cases (h.cur_first_msg + (h.max_num_msg - 1)) h.max_num_msg (omega arith),
      mod_cases (f + 1) h.max_num_msg (omega (arith, f_in)),
    )

    unchanged :
        window (insert h buffer).memory h.index h.max_num_msg h.cur_first_msg k
        ≡ window h.memory h.index h.max_num_msg h.cur_first_msg k
    unchanged = rw (insert-memory h buffer) (
        window-update h.memory h.index h.max_num_msg (slot h f) f
          (filled (h.memory (slot h f)) buffer) refl f_in (λ i hi ne. slot-ne v i f hi f_in ne)
          h.cur_first_msg k 1 back (omega arith) (omega arith))

    rest :
        window (insert h buffer).memory h.index h.max_num_msg ((f + 1) % h.max_num_msg) k
        ≡ take (h.max_num_msg - 1) (contents h)
    rest = rw (← back) (
        unchanged
        ∙ ap (window h.memory h.index h.max_num_msg h.cur_first_msg) (omega arith)
        ∙ sym (
            take-window h.memory h.index h.max_num_msg (h.max_num_msg - 1) h.cur_first_msg
              h.cur_num_msg))

    take_suc : h.max_num_msg ≡ suc (h.max_num_msg - 1)
    take_suc = omega arith

-- The contract of a queue of `max_num` messages of up to `max_size` bytes: what it holds after a
-- send, newest first, or that the message is refused.
pub send_contract : ℕ → ℕ → List (List ℕ) → List ℕ → Option (List (List ℕ))
send_contract max_num max_size held buffer =
    if ltb max_size (length buffer) then none else some (take max_num (buffer ∷ held))

pub view : Sent → Option (List (List ℕ))
view (sent h) = some (contents h)
view size_error = none

-- On every branch `do_send` does to a valid header what the contract says: a message that is too
-- long is refused, and any other is put in front of those held, of which the oldest goes if the
-- queue is full.
pub do_send_refines :
    {h : Header} (buffer : List ℕ)
    → IsValid h
    → view (do_send h buffer) ≡ send_contract h.max_num_msg h.max_msg_size (contents h) buffer
unfolding do_send view send_contract
do_send_refines {h} buffer v = elim (Bool-cases (ltb h.max_msg_size (length buffer))) [
  | inl e ↦ rw e
  | inr e ↦ rw (e, insert_refines buffer v)
]

-- What is sent is valid again.
do_send-IsValid :
    {h h' : Header} (buffer : List ℕ) → IsValid h → do_send h buffer ≡ sent h' → IsValid h'
unfolding do_send
do_send-IsValid {h} buffer v e = elim (Bool-cases (ltb h.max_msg_size (length buffer))) [
  | inl t ↦ ground arith
  | inr t ↦ subst IsValid (ground arith) (insert-IsValid buffer v)
]
