-- ===== src/MessageQueue/Order.antt =====
-- What readers see of a run of sends through ipc/message_queue.hpp.
use native.Mathlib.Nat.{mod-add-mod}
use mathlib.Core.List.{reverse-append, reverse-reverse}
use boat.Prelude.{
  take_all, take-take, length-reverse, length-take, take-append-take, take-suc, ℕ, zero, suc, ◌+◌,
  ◌-◌, ◌%◌, ◌≤◌, ◌<◌, ◌≡◌, refl, sym, ap, ap₂, ◌∙◌, List, [], ◌∷◌, length, get_or, take,
  take-append_left, arith, mod_cases, Option, some, none, ◌++◌, reverse, map, le→ltb, append_assoc,
  length-append,
}
use boat.MessageQueue.{
  Header, non_blocking, Wake, nothing, insert, do_send, sent, size_error, do_receive,
}
use boat.MessageQueue.Window.{IsValid, contents, length-contents}
use boat.MessageQueue.Send.{insert_refines, insert-IsValid, insert-fields, insert-counters}
use boat.MessageQueue.Receive.{lag, delivered, next_message, quiet_receive}

-- One send after another; `none` if one is refused.
unfoldable pub send_all : Header → List (List ℕ) → Option Header
send_all h [] = some h
send_all h (m ∷ ms) = elim (do_send h m) [ sent h' ↦ send_all h' ms | size_error ↦ none ]

-- `n` receives in turn by one reader that does not wait: what each hands out, and its position.
pub receive_all : ℕ → Header → ℕ → List ℕ → List (Option (List ℕ)) × ℕ
receive_all zero h cur buffer = ([], cur)
receive_all (suc n) h cur buffer =
    let (r, cur') = do_receive non_blocking h cur buffer [] in
    let (rs, cur'') = receive_all n h cur' buffer in (delivered r ∷ rs, cur'')

abbrev pub AllFit : ℕ → List (List ℕ) → Type 0
AllFit size [] = Unit {0}
AllFit size (m ∷ ms) = (length m ≤ size) × AllFit size ms

do_send-fits :
    (h : Header) (m : List ℕ) → length m ≤ h.max_msg_size → do_send h m ≡ sent (insert h m)
unfolding do_send
do_send-fits h m f = rw (le→ltb _ _ f)

lag-insert :
    {h : Header} (m : List ℕ) (cur : ℕ)
    → IsValid h
    → cur < h.max_num_msg
    → lag (insert h m) cur ≡ (lag h cur + 1) % h.max_num_msg
lag-insert {h} m cur v c =
    rw ((insert-fields h m).1, (insert-counters h m v).0)
      (omega (
        arith,
        mod_cases (cur + h.max_num_msg - h.cur_first_msg) h.max_num_msg (omega arith),
        mod_cases (h.cur_first_msg + (h.max_num_msg - 1)) h.max_num_msg (omega arith),
        mod_cases (lag h cur + 1) h.max_num_msg (omega arith),
        mod_cases (cur + h.max_num_msg - (h.cur_first_msg + (h.max_num_msg - 1)) % h.max_num_msg)
            h.max_num_msg (omega arith),
      ))

-- What a run of sends from `h` leads to.
pub record SentAll (h : Header) (ms : List (List ℕ)) (h' : Header) : Type 0 where
  pub sends : send_all h ms ≡ some h'
  pub valid : IsValid h'
  pub holds : contents h' ≡ take h.max_num_msg (reverse ms ++ contents h)
  pub same_max : h'.max_num_msg ≡ h.max_num_msg
  pub same_size : h'.max_msg_size ≡ h.max_msg_size
  pub lags : (cur : ℕ) → cur < h.max_num_msg → lag h' cur ≡ (lag h cur + length ms) % h.max_num_msg

lag-lt : {h : Header} (cur : ℕ) → IsValid h → lag h cur < h.max_num_msg
lag-lt cur v = omega arith

send_all-cons :
    {h h' : Header} (m : List ℕ) (ms : List (List ℕ))
    → IsValid h
    → length m ≤ h.max_msg_size
    → SentAll (insert h m) ms h'
    → SentAll h (m ∷ ms) h'
unfolding send_all
send_all-cons {h} {h'} m ms v f r = record {
  sends = rw (send_all, do_send-fits h m f) (r.sends);
  valid = r.valid;
  holds =
      r.holds
      ∙ ap (λ n. take n (reverse ms ++ contents (insert h m))) max
      ∙ ap (λ c. take h.max_num_msg (reverse ms ++ c)) (insert_refines m v)
      ∙ take-append-take h.max_num_msg h.max_num_msg (reverse ms) (m ∷ contents h) (omega arith)
      ∙ ap (take h.max_num_msg) (sym regroup);
  same_max = r.same_max ∙ max;
  same_size = r.same_size ∙ (insert-fields h m).2;
  lags = λ cur c.
      r.lags cur (rw max c)
      ∙ ap (λ n. (lag (insert h m) cur + length ms) % n) max
      ∙ ap (λ l. (l + length ms) % h.max_num_msg) (lag-insert m cur v c)
      ∙ (rw mod-add-mod (ap (λ t. t % h.max_num_msg) (omega arith)));
}
  where
    max : (insert h m).max_num_msg ≡ h.max_num_msg
    max = (insert-fields h m).1

    regroup : reverse (m ∷ ms) ++ contents h ≡ reverse ms ++ (m ∷ contents h)
    regroup =
        ap (λ r. r ++ contents h) (reverse-append (m ∷ []) ms)
        ∙ append_assoc (reverse ms) (m ∷ []) (contents h)

pub send_all_lem :
    {h : Header} (ms : List (List ℕ))
    → IsValid h
    → AllFit h.max_msg_size ms
    → (h' : Header) × SentAll h ms h'
send_all_lem {h} [] v f = (
  h,
  record {
    sends = unfold send_all in refl;
    valid = v;
    holds = sym (take_all h.max_num_msg (contents h) (omega (arith, length-contents h)));
    same_max = refl;
    same_size = refl;
    lags = λ cur c. omega (
      arith,
      lag-lt cur v,
      mod_cases (lag h cur + 0) h.max_num_msg (omega (arith, lag-lt cur v)),
    );
  },
)
send_all_lem {h} (m ∷ ms) v f =
    let (h', r) =
      send_all_lem {h = insert h m} ms (insert-IsValid m v) (rw (insert-fields h m).2 (f.1)) in
    (h', send_all-cons m ms v f.0 r)

-- The oldest of the last `k + 1` messages comes first.
pub oldest_first :
    (k : ℕ) (h : Header)
    → suc k ≤ h.cur_num_msg
    → reverse (take (suc k) (contents h)) ≡ get_or (contents h) k [] ∷ reverse (take k (contents h))
oldest_first k h n =
    ap reverse (take-suc k (contents h) [] (omega (arith, length-contents h)))
    ∙ reverse-append (take k (contents h)) (get_or (contents h) k [] ∷ [])

receive_all_lem :
    (k : ℕ) {h : Header} (cur : ℕ) (buffer : List ℕ)
    → IsValid h
    → cur < h.max_num_msg
    → h.max_msg_size ≤ length buffer
    → k ≤ h.cur_num_msg
    → lag h cur ≡ k
    → ((receive_all k h cur buffer).0 ≡ map some (reverse (take k (contents h))))
      × (lag h (receive_all k h cur buffer).1 ≡ 0)
unfolding receive_all
receive_all_lem zero cur buffer v c b n l = (refl, l)
receive_all_lem (suc k) {h} cur buffer v c b n l =
    let (first, behind, inside) = next_message k cur buffer [] v c b n l in
    let (rest, done) =
      receive_all_lem k (do_receive non_blocking h cur buffer []).1 buffer v inside b (omega arith)
        behind in
    (ap₂ ◌∷◌ first rest ∙ ap (map some) (sym (oldest_first k h n)), done)

-- The newest messages behind a run that is no longer than the queue are those of the run.
pub recent :
    {h h' : Header} (ms : List (List ℕ))
    → length ms ≤ h.max_num_msg
    → SentAll h ms h'
    → (take (length ms) (contents h') ≡ reverse ms) × (length ms ≤ h'.cur_num_msg)
recent {h} {h'} ms n s = (
  ap (take (length ms)) s.holds
      ∙ take-take (length ms) h.max_num_msg (reverse ms ++ contents h) n
      ∙ ap (λ k. take k (reverse ms ++ contents h)) (sym (length-reverse ms))
      ∙ take-append_left (reverse ms) (contents h),
  omega (
    arith,
    length-contents h',
    ap length s.holds,
    length-take h.max_num_msg (reverse ms ++ contents h),
    length-append (reverse ms) (contents h),
    length-reverse ms,
  ),
)

-- A reader that is up to date gets every message of a run that is shorter than the queue, once and
-- in the order of sending, and is up to date again.
pub sends_arrive_in_order :
    {h : Header} (ms : List (List ℕ)) (cur : ℕ) (buffer : List ℕ)
    → IsValid h
    → AllFit h.max_msg_size ms
    → cur < h.max_num_msg
    → h.max_msg_size ≤ length buffer
    → lag h cur ≡ 0
    → length ms < h.max_num_msg
    → (h' : Header) × (send_all h ms ≡ some h')
      × ((receive_all (length ms) h' cur buffer).0 ≡ map some ms)
      × (lag h' (receive_all (length ms) h' cur buffer).1 ≡ 0)
sends_arrive_in_order {h} ms cur buffer v f c b l n =
    let (h', s) = send_all_lem ms v f in
    let (newest, enough) = recent ms (omega arith) s in
    let behind : lag h' cur ≡ length ms =
      s.lags cur c ∙ rw l (omega (arith, mod_cases (0 + length ms) h.max_num_msg (omega arith))) in
    let (got, done) =
      receive_all_lem (length ms) cur buffer s.valid (rw s.same_max c) (rw s.same_size b) enough
        behind in
    (h', s.sends, got ∙ ap (map some) (ap reverse newest ∙ reverse-reverse ms), done)

-- A run of exactly as many messages as the queue holds is lost on a reader that was up to date: the
-- queue then holds the whole run, and the reader is told that there is nothing new.
pub full_lap_is_lost :
    {h : Header} (ms : List (List ℕ)) (cur : ℕ) (buffer : List ℕ) (wakes : List Wake)
    → IsValid h
    → AllFit h.max_msg_size ms
    → cur < h.max_num_msg
    → h.max_msg_size ≤ length buffer
    → lag h cur ≡ 0
    → length ms ≡ h.max_num_msg
    → (h' : Header) × (send_all h ms ≡ some h')
      × (contents h' ≡ reverse ms)
      × (do_receive non_blocking h' cur buffer wakes ≡ (nothing, cur))
full_lap_is_lost {h} ms cur buffer wakes v f c b l n =
    let (h', s) = send_all_lem ms v f in
    let (newest, enough) = recent ms (omega arith) s in
    let level : lag h' cur ≡ 0 =
      s.lags cur c ∙ rw l (omega (arith, mod_cases (0 + length ms) h.max_num_msg (omega arith))) in
    (
      h',
      s.sends,
      sym (
            take_all (length ms) (contents h')
              (omega (arith, length-contents h', s.valid, s.same_max)))
          ∙ newest,
      quiet_receive cur buffer wakes s.valid (rw s.same_max c) (rw s.same_size b) level,
    )
