-- ===== src/Queue/InProcess/Complete.antt =====
-- That the steps of readers and senders of ipc/test_queue.cc keep a reader in step.
use boat.Prelude.{
  ℕ, zero, suc, ◌-◌, ◌≤◌, ◌<◌, min, ◌≡◌, ◌≢◌, refl, subst, Bool, true, false, some, List, [], ◌∷◌,
  ◌++◌, arith, ◌==◌, if◌then◌else◌, length, get_or, set, take, drop, length-set, get_or-set_self,
  get_or-set_ne, length-append,
}
use boat.Prelude.Int.{ℤ, pos, negsuc}
use boat.MessageQueue.{memcpy}
use boat.Queue.InProcess.{QueueData, TestQueue, construct, begin_receive, has_news, finish_receive}
use boat.Queue.InProcess.Lockstep.{
  System, joined, received, Step, sends, begins, finishes, joins, other_begins, other_finishes,
  Reach, here, later, Holds, Stands, IsSynced,
}
use boat.Queue.InProcess.Synced.{sends-IsSynced, begins-IsSynced, received_newest, finishes-Stands}

abbrev read_into : System → List ℕ → List ℕ → System
read_into s buffer bytes =
    let rcvd = min (length buffer) s.queue.data_len in
    record s {
      queue = record s.queue { users = set s.queue.users s.reader.idx (pos s.queue.inc) };
      reader = record s.reader { last_inc = s.queue.inc };
      receiving = false;
      got = take rcvd (memcpy buffer bytes rcvd) ∷ s.got;
    }

received-eq :
    (s : System) (buffer bytes : List ℕ)
    → s.queue.bytes ≡ some bytes
    → received s buffer ≡ read_into s buffer bytes
unfolding finish_receive
received-eq s buffer bytes q = ground arith

something_sent :
    (u : ℤ) (last inc : ℕ) (got : List (List ℕ)) → inc ≢ last → Stands u last inc true got → 0 < inc
something_sent (negsuc n) last inc got ne s = cc
something_sent (pos zero) last inc got ne s = omega (arith, s.0)
something_sent (pos (suc n)) last inc got ne s = omega (arith, s.0, s.1)

finishes-IsSynced :
    {max_size : ℕ} {s : System} (buffer : List ℕ)
    → s.receiving ≡ true
    → max_size ≤ length buffer
    → has_news false s.reader s.queue ≡ true
    → IsSynced max_size s
    → IsSynced max_size (received s buffer)
unfolding has_news
finishes-IsSynced {max_size} {s} buffer r l news v =
    let ne : s.queue.inc ≢ s.reader.last_inc = λ e. ground arith in
    let at = subst (λ b. Stands user s.reader.last_inc s.queue.inc b s.got) r v.stands in
    let some_sent = something_sent user s.reader.last_inc s.queue.inc s.got ne at in
    let (bytes, q, newest) =
      received_newest s.sent s.queue.bytes s.queue.data_len buffer v.holds (omega (arith, v.small))
        (omega (arith, v.numbered)) in
    let (stands, complete) =
      finishes-Stands user s.reader.last_inc s.queue.inc s.got s.sent _ ne v.numbered newest at
        v.complete in
    let now : get_or (set s.queue.users s.reader.idx (pos s.queue.inc)) s.reader.idx (negsuc 0)
        ≡ pos s.queue.inc =
      get_or-set_self s.queue.users s.reader.idx (pos s.queue.inc) (negsuc 0) v.in_list in
    rw (received-eq s buffer bytes q) (record {
      numbered = v.numbered;
      in_list = rw (length-set s.queue.users s.reader.idx (pos s.queue.inc)) v.in_list;
      holds = v.holds;
      small = v.small;
      stands = rw now stands;
      complete = complete;
    })
  where
    user : ℤ
    user = get_or s.queue.users s.reader.idx (negsuc 0)

begin_other :
    (g : TestQueue) (q : QueueData) (i : ℕ)
    → g.idx ≢ i
    → (get_or (begin_receive g q).users i (negsuc 0) ≡ get_or q.users i (negsuc 0))
      × (length (begin_receive g q).users ≡ length q.users)
      × ((begin_receive g q).inc ≡ q.inc)
      × ((begin_receive g q).bytes ≡ q.bytes)
      × ((begin_receive g q).data_len ≡ q.data_len)
unfolding begin_receive
begin_other g q i ne =
    ground (arith, get_or-set_ne q.users (pos 0) (negsuc 0) ne, length-set q.users g.idx (pos 0))

finish_other :
    (g : TestQueue) (buffer : List ℕ) (q : QueueData) (i : ℕ)
    → g.idx ≢ i
    → let q' = (finish_receive false g buffer q).1.1 in
      (get_or q'.users i (negsuc 0) ≡ get_or q.users i (negsuc 0))
      × (length q'.users ≡ length q.users)
      × (q'.inc ≡ q.inc)
      × (q'.bytes ≡ q.bytes)
      × (q'.data_len ≡ q.data_len)
unfolding finish_receive
finish_other g buffer q i ne =
    ground
      (arith, get_or-set_ne q.users (pos q.inc) (negsuc 0) ne, length-set q.users g.idx (pos q.inc))

other-IsSynced :
    {max_size : ℕ} {s : System} (q : QueueData)
    → (get_or q.users s.reader.idx (negsuc 0) ≡ get_or s.queue.users s.reader.idx (negsuc 0))
      × (length q.users ≡ length s.queue.users)
      × (q.inc ≡ s.queue.inc)
      × (q.bytes ≡ s.queue.bytes)
      × (q.data_len ≡ s.queue.data_len)
    → IsSynced max_size s
    → IsSynced max_size (record s { queue = q })
other-IsSynced {max_size} {s} q same v = record {
  numbered = omega (arith, v.numbered, same.2);
  in_list = omega (arith, v.in_list, same.1);
  holds = rw (same.3, same.4) v.holds;
  small = omega (arith, v.small, same.4);
  stands = rw (same.0, same.2) v.stands;
  complete = rw same.2 v.complete;
}

get_or-append {ℓ} :
    {A : Type ℓ} (xs ys : List A) (i : ℕ) (d : A)
    → i < length xs
    → get_or (xs ++ ys) i d ≡ get_or xs i d
get_or-append [] ys i d h = absurd (omega arith)
get_or-append (x ∷ xs) ys zero d h = refl
get_or-append (x ∷ xs) ys (suc i) d h = get_or-append xs ys i d (omega arith)

get_or-append_last {ℓ} :
    {A : Type ℓ} (xs : List A) (x d : A) → get_or (xs ++ x ∷ []) (length xs) d ≡ x
get_or-append_last [] x d = refl
get_or-append_last (y ∷ xs) x d = get_or-append_last xs x d

joins-IsSynced :
    {max_size : ℕ} {s : System}
    → IsSynced max_size s
    → IsSynced max_size (record s { queue = (construct max_size s.queue).0 })
unfolding construct
joins-IsSynced {max_size} {s} v = record {
  numbered = v.numbered;
  in_list = omega (arith, v.in_list, length-append s.queue.users (negsuc 0 ∷ []));
  holds = v.holds;
  small = v.small;
  stands =
      rw (get_or-append s.queue.users (negsuc 0 ∷ []) s.reader.idx (negsuc 0) v.in_list) v.stands;
  complete = v.complete;
}

Step-IsSynced :
    {max_size : ℕ} {s t : System} → Step max_size s t → IsSynced max_size s → IsSynced max_size t
Step-IsSynced (sends s g msg e l d) v = sends-IsSynced g msg e l d v
Step-IsSynced (begins s r) v = begins-IsSynced r v
Step-IsSynced (finishes s buffer r l news) v = finishes-IsSynced buffer r l news v
Step-IsSynced (joins s) v = joins-IsSynced v
Step-IsSynced (other_begins s g ne) v =
    other-IsSynced (begin_receive g s.queue) (begin_other g s.queue s.reader.idx ne) v
Step-IsSynced (other_finishes s g buffer ne) v =
    other-IsSynced _ (finish_other g buffer s.queue s.reader.idx ne) v

Reach-IsSynced :
    {max_size : ℕ} {s t : System} → IsSynced max_size s → Reach max_size s t → IsSynced max_size t
Reach-IsSynced v here = v
Reach-IsSynced v (later r st) = Step-IsSynced st (Reach-IsSynced v r)

joined-IsSynced :
    (max_size : ℕ) (sent : List (List ℕ)) (q : QueueData)
    → length sent ≡ q.inc
    → Holds sent q.bytes q.data_len
    → q.data_len ≤ max_size
    → IsSynced max_size (joined max_size sent q)
unfolding construct
joined-IsSynced max_size sent q l h d = record {
  numbered = l;
  in_list = omega (arith, length-append q.users (negsuc 0 ∷ []));
  holds = h;
  small = d;
  stands = rw (get_or-append_last q.users (negsuc 0) (negsuc 0)) (refl, refl, refl);
  complete = refl;
}

behind_by_one :
    (u : ℤ) (last inc : ℕ) (r : Bool) (got : List (List ℕ))
    → Stands u last inc r got
    → (if last == 0 then 0 else inc - last) ≤ 1
behind_by_one (negsuc n) last inc r got s = ground (arith, s.0)
behind_by_one (pos zero) last inc r got s = ground (arith, s.0)
behind_by_one (pos (suc n)) last inc r got s = ground (arith, s.0, s.1, s.2)

-- A reader joins a queue, new or old, and from then on a message is only sent once all readers have
-- read the one before, while other readers come and read. Then what the reader has got is a stretch
-- of what was sent, in order and without a gap, and from its first message on it lacks at most the
-- newest one.
pub lockstep_loses_none :
    (max_size : ℕ) (sent : List (List ℕ)) (q : QueueData) {s : System}
    → length sent ≡ q.inc
    → Holds sent q.bytes q.data_len
    → q.data_len ≤ max_size
    → Reach max_size (joined max_size sent q) s
    → (s.got ≡ take (length s.got) (drop (s.queue.inc - s.reader.last_inc) s.sent))
      × ((if s.reader.last_inc == 0 then 0 else s.queue.inc - s.reader.last_inc) ≤ 1)
lockstep_loses_none max_size sent q {s} l h d r =
    let v = Reach-IsSynced (joined-IsSynced max_size sent q l h d) r in
    (v.complete, behind_by_one _ _ _ _ _ v.stands)
