-- ===== src/MessageQueue/Receive.antt =====
-- `do_receive` of ipc/message_queue.hpp: which message a reader gets, on every branch.
pub mod Wakeup
use boat.Prelude.{
  ℕ, suc, ◌+◌, ◌-◌, ◌%◌, ◌≤◌, ◌<◌, min, ◌≡◌, refl, sym, ap, ◌∙◌, ◌≢◌, List, [], ◌∷◌, add64, ◌++◌,
  length-take, length, get_or, take, drop, take-append_left, Bool-cases, inl, inr, arith, mod_cases,
  if◌then◌else◌, ◌==◌, ◌||◌, true, false, Option, some, none, le→ltb,
}
use boat.MessageQueue.{
  Message, Header, slot, Block, blocking, timed, non_blocking, Wake, notified, Received, received,
  nothing, advance, pick, do_receive, wait, wait_blocking, wait_timed, is_empty,
}
use boat.MessageQueue.Window.{
  IsValid, payload, get_or-window, contents, end_index_lem, length-contents, get_or-window_zero,
}

-- How many messages were sent behind the one at the reader's position, modulo the number of messages
-- of the ring: 0 is "nothing new", and also a whole lap.
abbrev pub lag : Header → ℕ → ℕ
lag h m_cur_msg = (m_cur_msg + h.max_num_msg - h.cur_first_msg) % h.max_num_msg

advance_position :
    {h : Header} (cur : ℕ)
    → IsValid h
    → 0 < h.cur_num_msg
    → cur < h.max_num_msg
    → lag h cur ≢ 0
    → advance h cur ≡ (h.cur_first_msg + (min (lag h cur) h.cur_num_msg - 1)) % h.max_num_msg
unfolding advance
advance_position {h} cur v n c l = rw (end_index_lem v n) (
    ground (
      arith,
      v.small,
      mod_cases (h.cur_first_msg + (h.cur_num_msg - 1)) h.max_num_msg (omega arith),
      mod_cases (h.cur_first_msg + (lag h cur - 1)) h.max_num_msg (omega arith),
      mod_cases (cur + h.max_num_msg - h.cur_first_msg) h.max_num_msg (omega arith),
    ))

-- The bytes that a receive hands out.
unfoldable pub delivered : Received → Option (List ℕ)
delivered (received buffer recvd_size) = some (take recvd_size buffer)
delivered _ = none

take-memcpy :
    (target source : List ℕ) (n : ℕ)
    → n ≤ length source
    → take n (take n source ++ drop n target) ≡ take n source
take-memcpy target source n h =
    let e : n ≡ length (take n source) = omega (arith, length-take n source) in
    ap (λ k. take k (take n source ++ drop n target)) e
    ∙ take-append_left (take n source) (drop n target)

pub delivered-pick :
    {h : Header} (cur : ℕ) (buffer : List ℕ)
    → IsValid h
    → delivered (pick h cur buffer).0 ≡ some (payload (h.memory (slot h (advance h cur))))
unfolding pick delivered
delivered-pick {h} cur buffer v =
    ap some (take-memcpy buffer m.bytes m.len (v.whole (slot h (advance h cur))))
  where
    m : Message
    m = h.memory (slot h (advance h cur))

-- What a reader that is `k` messages behind finds in a queue that holds `held`, newest first: the
-- oldest message that it has not had and that is still there, and how far behind it is then.
pub receive_contract : List (List ℕ) → ℕ → Option (List ℕ) × ℕ
receive_contract held k =
    let i = min k (length held) - 1 in
    if k == 0 || length held == 0 then (none, k) else (some (get_or held i []), i)

lag-position :
    {h : Header} (i : ℕ)
    → IsValid h
    → i < h.max_num_msg
    → lag h ((h.cur_first_msg + i) % h.max_num_msg) ≡ i
lag-position {h} i v l = omega (
  arith,
  mod_cases (h.cur_first_msg + i) h.max_num_msg (omega arith),
  mod_cases ((h.cur_first_msg + i) % h.max_num_msg + h.max_num_msg - h.cur_first_msg) h.max_num_msg
      (omega arith),
)

delivers :
    {h : Header} (cur : ℕ) (buffer : List ℕ)
    → IsValid h
    → 0 < h.cur_num_msg
    → cur < h.max_num_msg
    → lag h cur ≢ 0
    → let i = min (lag h cur) h.cur_num_msg - 1 in
      (delivered (pick h cur buffer).0 ≡ some (get_or (contents h) i []))
      × (lag h (pick h cur buffer).1 ≡ i)
      × ((pick h cur buffer).1 < h.max_num_msg)
unfolding pick
delivers {h} cur buffer v n c l = (
  delivered-pick cur buffer v
      ∙ (rw (advance_position cur v n c l) (
          ap some (
            sym (
              get_or-window h.memory h.index h.max_num_msg (min (lag h cur) h.cur_num_msg - 1)
                h.cur_first_msg h.cur_num_msg v.first_in (omega arith))))),
  rw (advance_position cur v n c l)
      (lag-position (min (lag h cur) h.cur_num_msg - 1) v (omega arith)),
  rw (advance_position cur v n c l) (omega arith),
)

lag_zero :
    {h : Header} (cur : ℕ) → IsValid h → cur < h.max_num_msg → lag h cur ≡ 0 → cur ≡ h.cur_first_msg
lag_zero {h} cur v c l =
    omega (arith, mod_cases (cur + h.max_num_msg - h.cur_first_msg) h.max_num_msg (omega arith))

pub lag_first : {h : Header} → IsValid h → lag h h.cur_first_msg ≡ 0
lag_first {h} v = omega (
  arith,
  mod_cases (h.cur_first_msg + h.max_num_msg - h.cur_first_msg) h.max_num_msg (omega arith),
)

nothing_new :
    {h : Header} (cur : ℕ)
    → IsValid h
    → cur < h.max_num_msg
    → (is_empty h || cur == h.cur_first_msg) ≡ (lag h cur == 0 || length (contents h) == 0)
nothing_new {h} cur v c =
    rw (length-contents h) (
      ground (arith, mod_cases (cur + h.max_num_msg - h.cur_first_msg) h.max_num_msg (omega arith)))

pub do_receive_quiet :
    (block : Block) (h : Header) (cur : ℕ) (buffer : List ℕ) (wakes : List Wake)
    → h.max_msg_size ≤ length buffer
    → (is_empty h || cur == h.cur_first_msg) ≡ true
    → do_receive block h cur buffer wakes ≡ wait block cur buffer wakes
unfolding do_receive
do_receive_quiet block h cur buffer wakes b e = rw (le→ltb _ _ b, e)

do_receive_ready :
    (block : Block) (h : Header) (cur : ℕ) (buffer : List ℕ) (wakes : List Wake)
    → h.max_msg_size ≤ length buffer
    → (is_empty h || cur == h.cur_first_msg) ≡ false
    → do_receive block h cur buffer wakes ≡ pick h cur buffer
unfolding do_receive
do_receive_ready block h cur buffer wakes b e = rw (le→ltb _ _ b, e)

-- A receive that does not wait does to every reader what the contract says. How far a reader is behind
-- counts modulo the number of messages that the ring has, so that one who is a whole lap behind counts
-- as one with nothing new. A reader with nothing new gets nothing and stays where it is; of the messages
-- that count as new to any other it gets the oldest that is still held, and is moved behind it.
pub try_receive_refines :
    {h : Header} (cur : ℕ) (buffer : List ℕ) (wakes : List Wake)
    → IsValid h
    → cur < h.max_num_msg
    → h.max_msg_size ≤ length buffer
    → let (r, cur') = do_receive non_blocking h cur buffer wakes in
      ((delivered r ≡ (receive_contract (contents h) (lag h cur)).0)
        × (lag h cur' ≡ (receive_contract (contents h) (lag h cur)).1))
      × (cur' < h.max_num_msg)
unfolding receive_contract delivered wait
try_receive_refines {h} cur buffer wakes v c b =
    elim (Bool-cases (is_empty h || cur == h.cur_first_msg)) [
      | inl e ↦
          rw (do_receive_quiet non_blocking h cur buffer wakes b e, ← nothing_new cur v c, e)
            ((refl, refl), c)
      | inr e ↦
          rw
            (
              do_receive_ready non_blocking h cur buffer wakes b e,
              ← nothing_new cur v c,
              e,
              length-contents h,
            )
            (let d = delivers cur buffer v (ground arith) c (ground (arith, lag_zero cur v c)) in
              ((d.0, d.1), d.2))
    ]

-- A reader that is `k + 1` messages behind, all of them held, gets the oldest of those.
pub next_message :
    {h : Header} (k cur : ℕ) (buffer : List ℕ) (wakes : List Wake)
    → IsValid h
    → cur < h.max_num_msg
    → h.max_msg_size ≤ length buffer
    → suc k ≤ h.cur_num_msg
    → lag h cur ≡ suc k
    → let (r, cur') = do_receive non_blocking h cur buffer wakes in
      (delivered r ≡ some (get_or (contents h) k [])) × (lag h cur' ≡ k) × (cur' < h.max_num_msg)
unfolding receive_contract
next_message {h} k cur buffer wakes v c b n l = (
  (r.0).0 ∙ ap (λ i. (receive_contract (contents h) i).0) l ∙ rw (length-contents h) (ground arith),
  (r.0).1 ∙ ap (λ i. (receive_contract (contents h) i).1) l ∙ rw (length-contents h) (ground arith),
  r.1,
)
  where
    r :
        let (r, cur') = do_receive non_blocking h cur buffer wakes in
        ((delivered r ≡ (receive_contract (contents h) (lag h cur)).0)
          × (lag h cur' ≡ (receive_contract (contents h) (lag h cur)).1))
        × (cur' < h.max_num_msg)
    r = try_receive_refines cur buffer wakes v c b

-- A reader that is behind does not wait, whatever its mode.
pub ready_alike :
    {h : Header} (block : Block) (k cur : ℕ) (buffer : List ℕ) (wakes : List Wake)
    → IsValid h
    → cur < h.max_num_msg
    → h.max_msg_size ≤ length buffer
    → suc k ≤ h.cur_num_msg
    → lag h cur ≡ suc k
    → do_receive block h cur buffer wakes ≡ do_receive non_blocking h cur buffer []
ready_alike {h} block k cur buffer wakes v c b n l =
    let e : (is_empty h || cur == h.cur_first_msg) ≡ false =
      rw (nothing_new cur v c, l, length-contents h) (ground arith) in
    do_receive_ready block h cur buffer wakes b e
    ∙ sym (do_receive_ready non_blocking h cur buffer [] b e)

-- A reader with nothing new gets nothing and stays.
pub quiet_receive :
    {h : Header} (cur : ℕ) (buffer : List ℕ) (wakes : List Wake)
    → IsValid h
    → cur < h.max_num_msg
    → h.max_msg_size ≤ length buffer
    → lag h cur ≡ 0
    → do_receive non_blocking h cur buffer wakes ≡ (nothing, cur)
unfolding wait
quiet_receive {h} cur buffer wakes v c b l =
    do_receive_quiet non_blocking h cur buffer wakes b (rw (nothing_new cur v c, l))
