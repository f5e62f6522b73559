-- ===== src/Queue/Proto/InOrder.antt =====
-- Runs of messages through `ProtoQueue` of ipc/queue.hpp.
use mathlib.Core.List.{reverse-reverse}
use boat.Prelude.{
  ℕ, suc, ◌+◌, ◌≤◌, ◌<◌, ◌≡◌, refl, sym, ap, ap₂, ◌∙◌, Option, none, some, List, [], ◌∷◌, arith,
  le→leb, length, take, reverse, map, mod_cases,
}
use boat.MessageQueue.{
  Header, Wake, Received, received, non_blocking, timed, do_receive, do_send, Sent, sent,
  size_error,
}
use boat.MessageQueue.Window.{IsValid, contents}
use boat.MessageQueue.Receive.{lag, delivered, next_message, ready_alike}
use boat.MessageQueue.Order.{send_all, AllFit, send_all_lem, recent, oldest_first}
use boat.Queue.Proto.{
  LogEntry, Format, Incoming, message, no_message, stamped, proto_send, parsed, proto_receive,
  buf_size,
}

module _ {ℓ} {T : Type ℓ} (format : Format T) where
  open format use {serialize, parse}

  abbrev and_then : Option Header → (Header → Option Header) → Option Header
  and_then none f = none
  and_then (some h) f = f h

  -- Messages with the times at which they are sent, one after another.
  pub proto_send_all : List (ℕ × T) → Header → Option Header
  proto_send_all [] h = some h
  proto_send_all ((now, msg) ∷ ms) h = and_then (proto_send format now msg h) (proto_send_all ms)

  -- One call of `receive` for each buffer, with the wake-ups during it.
  pub proto_receive_all : List (List ℕ × List Wake) → Header → ℕ → List (Incoming T) × ℕ
  proto_receive_all [] h cur = ([], cur)
  proto_receive_all ((buffer, wakes) ∷ calls) h cur =
      let (r, cur') = proto_receive format h cur buffer wakes in
      let (rs, cur'') = proto_receive_all calls h cur' in (r ∷ rs, cur'')

  -- The bytes of the entries, and that each fits the buffer.
  abbrev pub entry : ℕ × T → List ℕ
  entry m = serialize (stamped format m.0 m.1)

  abbrev pub HasRoom : List (List ℕ × List Wake) → Type 0
  HasRoom [] = Unit {0}
  HasRoom (c ∷ cs) = (buf_size ≤ length c.0) × HasRoom cs

  fitting_sent :
      (m : ℕ × T) (h : Header) (f g : Header → Option Header)
      → length (entry m) ≤ buf_size
      → ((h' : Header) → f h' ≡ g h')
      → and_then (proto_send format m.0 m.1 h) f
        ≡ elim (do_send h (entry m)) [ sent h' ↦ g h' | size_error ↦ none ]
  unfolding proto_send
  fitting_sent m h f g r e =
      rw (le→leb (length (entry m)) buf_size r) (by_result (do_send h (entry m)))
    where
      by_result :
          (r : Sent)
          → and_then (elim r [ sent h' ↦ some h' | size_error ↦ none ]) f
            ≡ elim r [ sent h' ↦ g h' | size_error ↦ none ]
      by_result (sent h') = e h'
      by_result size_error = refl

  proto_send_all-eq :
      (ms : List (ℕ × T)) (h : Header)
      → AllFit buf_size (map entry ms)
      → proto_send_all ms h ≡ send_all h (map entry ms)
  unfolding proto_send_all send_all
  proto_send_all-eq [] h f = refl
  proto_send_all-eq (m ∷ ms) h f =
      fitting_sent m h (proto_send_all ms) (λ h'. send_all h' (map entry ms)) f.0
        (λ h'. proto_send_all-eq ms h' f.1)

  length-map-entry : (ms : List (ℕ × T)) → length (map entry ms) ≡ length ms
  length-map-entry [] = refl
  length-map-entry (m ∷ ms) = ap suc (length-map-entry ms)

  -- What `receive` makes of the bytes of an entry.
  abbrev read_back : List ℕ → Incoming T
  read_back b = message (parse b).content

  parsed-delivered :
      (r : Received) {b : List ℕ} → delivered r ≡ some b → parsed format r ≡ read_back b
  unfolding delivered
  parsed-delivered (received buffer n) e =
      ap (λ (d : Option (List ℕ)). elim d [ none ↦ no_message | some b ↦ read_back b ]) e
  parsed-delivered r e = cc

  proto_receive_all_lem :
      (calls : List (List ℕ × List Wake)) {h : Header} (cur : ℕ)
      → IsValid h
      → cur < h.max_num_msg
      → h.max_msg_size ≤ buf_size
      → HasRoom calls
      → length calls ≤ h.cur_num_msg
      → lag h cur ≡ length calls
      → ((proto_receive_all calls h cur).0
          ≡ map read_back (reverse (take (length calls) (contents h))))
        × (lag h (proto_receive_all calls h cur).1 ≡ 0)
  unfolding proto_receive_all proto_receive
  proto_receive_all_lem [] cur v c b r n l = (refl, l)
  proto_receive_all_lem ((buffer, wakes) ∷ calls) {h} cur v c b r n l =
      let k = length calls in
      let room : h.max_msg_size ≤ length buffer = omega (arith, r.0) in
      let (first, behind, inside) = next_message k cur buffer [] v c room n l in
      let (rest, done) =
        proto_receive_all_lem calls (do_receive non_blocking h cur buffer []).1 v inside b r.1
          (omega arith) behind in
      rw (ready_alike timed k cur buffer wakes v c room n l) (
        ap₂ ◌∷◌ (parsed-delivered (do_receive non_blocking h cur buffer []).0 first) rest
            ∙ ap (map read_back) (sym (oldest_first k h n)),
        done,
      )

  -- Every message is read back if parsing undoes serialising.
  read_back-entry :
      ((e : LogEntry T) → parse (serialize e) ≡ e)
      → (ms : List (ℕ × T)) → map read_back (map entry ms) ≡ map (λ m. message m.1) ms
  unfolding stamped
  read_back-entry p [] = refl
  read_back-entry p (m ∷ ms) =
      ap₂ ◌∷◌ (ap (λ (e : LogEntry T). message e.content) (p (stamped format m.0 m.1)))
        (read_back-entry p ms)

  -- Messages whose entries fit the buffer, fewer than the queue holds, are sent one after another; a
  -- reader that was up to date then gets exactly these messages from as many calls of `receive`, in
  -- the order of sending and whatever its buffer holds and whoever wakes it, and is up to date again,
  -- provided that parsing undoes serialising.
  pub messages_arrive :
      {h : Header} (ms : List (ℕ × T)) (calls : List (List ℕ × List Wake)) (cur : ℕ)
      → ((e : LogEntry T) → parse (serialize e) ≡ e)
      → IsValid h
      → h.max_msg_size ≡ buf_size
      → AllFit buf_size (map entry ms)
      → HasRoom calls
      → length calls ≡ length ms
      → length ms < h.max_num_msg
      → cur < h.max_num_msg
      → lag h cur ≡ 0
      → (h' : Header) × (proto_send_all ms h ≡ some h')
        × ((proto_receive_all calls h' cur).0 ≡ map (λ m. message m.1) ms)
        × (lag h' (proto_receive_all calls h' cur).1 ≡ 0)
  messages_arrive {h} ms calls cur p v size f r same n c l =
      let es = map entry ms in
      let long : length es ≡ length ms = length-map-entry ms in
      let (h', s) = send_all_lem es v (rw size f) in
      let (newest, enough) = recent es (omega arith) s in
      let behind : lag h' cur ≡ length calls =
        s.lags cur c
        ∙ rw (l, long) (omega (arith, mod_cases (0 + length ms) h.max_num_msg (omega arith))) in
      let (got, done) =
        proto_receive_all_lem calls cur s.valid (rw s.same_max c) (omega (arith, s.same_size)) r
          (omega arith) behind in
      (
        h',
        proto_send_all-eq ms h f ∙ s.sends,
        got
            ∙ ap (λ k. map read_back (reverse (take k (contents h')))) (same ∙ sym long)
            ∙ ap (λ c. map read_back (reverse c)) newest
            ∙ ap (map read_back) (reverse-reverse es)
            ∙ read_back-entry p ms,
        done,
      )
