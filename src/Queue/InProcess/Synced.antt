-- ===== src/Queue/InProcess/Synced.antt =====
-- What the steps of readers and senders of ipc/test_queue.cc do to where a reader stands.
use boat.Prelude.{
  ℕ, zero, suc, ◌+◌, ◌-◌, ◌≤◌, ◌<◌, min, ◌≡◌, ◌≢◌, refl, ap, ap₂, subst, Bool, true, false, Option,
  none, some, List, [], ◌∷◌, arith, ◌==◌, if◌then◌else◌, length, get_or, set, take, drop,
  length-set, get_or-set_self, take-append_left, take-length, Bool-cases, inl, inr,
}
use boat.Prelude.Int.{ℤ, pos, negsuc}
use boat.MessageQueue.{memcpy}
use boat.Queue.InProcess.{TestQueue, send, has_read, all_read, send_done, begin_receive}
use boat.Queue.InProcess.Lockstep.{System, Holds, Stands, IsSynced}

sends-Stands :
    (u : ℤ) (last inc : ℕ) (r : Bool) (got sent : List (List ℕ)) (m : List ℕ)
    → has_read inc u ≡ true
    → Stands u last inc r got
    → got ≡ take (length got) (drop (inc - last) sent)
    → Stands u last (inc + 1) r got × (got ≡ take (length got) (drop (inc + 1 - last) (m ∷ sent)))
sends-Stands (negsuc n) last inc r got sent m h s c = (s, rw s.2)
sends-Stands (pos zero) last inc r got sent m h s c = (s, rw s.1)
sends-Stands (pos (suc n)) last inc r got sent m h s c =
    let same : inc ≡ last = ground arith in
    let none_left : inc - last ≡ 0 = omega arith in
    let one_left : inc + 1 - last ≡ 1 = omega arith in
    ((s.0, omega arith, omega arith), rw one_left (rw none_left at c))

all_read-at :
    (inc : ℕ) (users : List ℤ) (i : ℕ)
    → all_read inc users ≡ true
    → i < length users
    → has_read inc (get_or users i (negsuc 0)) ≡ true
all_read-at inc [] i a h = absurd (omega arith)
all_read-at inc (n ∷ ns) zero a h = ground arith
all_read-at inc (n ∷ ns) (suc i) a h = all_read-at inc ns i (ground arith) (omega arith)

-- A copy of a whole message is read back.
take-memcpy_all : (target m : List ℕ) (n : ℕ) → n ≡ length m → take n (memcpy target m n) ≡ m
take-memcpy_all target m n e = rw (e, take-length m) (take-append_left m (drop (length m) target))

pub sends-IsSynced :
    {max_size : ℕ} {s : System} (g : TestQueue) (msg : List ℕ)
    → g.max_size ≡ max_size
    → length msg ≤ max_size
    → send_done false s.queue ≡ true
    → IsSynced max_size s
    → IsSynced max_size (record s { queue = send g msg s.queue; sent = msg ∷ s.sent })
unfolding send send_done
sends-IsSynced {max_size} {s} g msg e l d v =
    let n : min (length msg) g.max_size ≡ length msg = omega arith in
    let (stands, complete) =
      sends-Stands _ _ _ _ s.got s.sent msg (all_read-at _ s.queue.users s.reader.idx d v.in_list)
        v.stands v.complete in
    record {
      numbered = omega (arith, v.numbered);
      in_list = v.in_list;
      holds = (take-memcpy_all _ msg _ n, n);
      small = omega arith;
      stands = stands;
      complete = complete;
    }

begins-Stands :
    (u : ℤ) (last inc : ℕ) (got : List (List ℕ))
    → Stands u last inc false got
    → (if last == 0 then Stands (pos 0) last inc true got else Stands u last inc true got)
begins-Stands (negsuc n) last inc got s = rw s.0 (refl, s.2)
begins-Stands (pos zero) last inc got s = rw s.0 (refl, s.1)
begins-Stands (pos (suc n)) last inc got s =
    let later : (last == 0) ≡ false = ground arith in rw later (s.0, s.1, s.2)

pub begins-IsSynced :
    {max_size : ℕ} {s : System}
    → s.receiving ≡ false
    → IsSynced max_size s
    → IsSynced max_size (record s { queue = begin_receive s.reader s.queue; receiving = true })
unfolding begin_receive
begins-IsSynced {max_size} {s} r v =
    let stands =
      begins-Stands _ _ _ s.got
        (subst (λ b. Stands user s.reader.last_inc s.queue.inc b s.got) r v.stands) in
    elim (Bool-cases (s.reader.last_inc == 0)) [
      | inl first ↦
          let now : get_or (set s.queue.users s.reader.idx (pos 0)) s.reader.idx (negsuc 0)
              ≡ pos 0 =
            get_or-set_self s.queue.users s.reader.idx (pos 0) (negsuc 0) v.in_list in
          rw first (record {
            numbered = v.numbered;
            in_list = rw (length-set s.queue.users s.reader.idx (pos 0)) v.in_list;
            holds = v.holds;
            small = v.small;
            stands = rw now (rw first at stands);
            complete = v.complete;
          })
      | inr again ↦ rw again (record {
        numbered = v.numbered;
        in_list = v.in_list;
        holds = v.holds;
        small = v.small;
        stands = rw again at stands;
        complete = v.complete;
      })
    ]
  where
    user : ℤ
    user = get_or s.queue.users s.reader.idx (negsuc 0)

-- What the buffer holds after a receive.
pub received_newest :
    (sent : List (List ℕ)) (b : Option (List ℕ)) (n : ℕ) (buffer : List ℕ)
    → Holds sent b n
    → n ≤ length buffer
    → 0 < length sent
    → (bytes : List ℕ) × (b ≡ some bytes)
      × (take (min (length buffer) n) (memcpy buffer bytes (min (length buffer) n)) ∷ []
          ≡ take 1 sent)
received_newest [] b n buffer h l e = absurd (omega arith)
received_newest (m ∷ ms) none n buffer h l e = elim h [ ]
received_newest (m ∷ ms) (some bytes) n buffer h l e =
    let full : min (length buffer) n ≡ n = omega arith in
    (
      bytes,
      refl,
      rw (full, h.0) (ap (λ a. a ∷ []) (rw h.1 (take-append_left m (drop (length m) buffer)))),
    )

pub finishes-Stands :
    (u : ℤ) (last inc : ℕ) (got sent : List (List ℕ)) (x : List ℕ)
    → inc ≢ last
    → length sent ≡ inc
    → x ∷ [] ≡ take 1 sent
    → Stands u last inc true got
    → got ≡ take (length got) (drop (inc - last) sent)
    → Stands (pos inc) inc inc false (x ∷ got)
      × (x ∷ got ≡ take (suc (length got)) (drop (inc - inc) sent))
finishes-Stands (negsuc n) last inc got sent x ne l e s c = cc
finishes-Stands (pos n) last zero got [] x ne l e s c = cc
finishes-Stands (pos n) last zero got (m ∷ ms) x ne l e s c = absurd (omega arith)
finishes-Stands (pos zero) last (suc k) got (m ∷ ms) x ne l e s c =
    let z : suc k - suc k ≡ 0 = omega arith in ((refl, omega arith, omega arith), rw (z, s.1) e)
finishes-Stands (pos (suc n)) last (suc k) got (m ∷ ms) x ne l e s c =
    let z : suc k - suc k ≡ 0 = omega arith in
    let one : suc k - last ≡ 1 = omega arith in
    ((refl, omega arith, omega arith), rw z (ap₂ ◌∷◌ (cc) (rw one at c)))
finishes-Stands (pos n) last (suc k) got [] x ne l e s c = absurd (omega arith)
