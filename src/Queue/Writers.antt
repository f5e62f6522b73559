-- ===== src/Queue/Writers.antt =====
-- When a closing writer removes a queue (the destructor in ipc/queue.cc).
use boat.Prelude.{
  ℕ, zero, suc, ◌+◌, ◌-◌, ◌≤◌, ◌≡◌, refl, ◌↔◌, true, false, Option, none, some, List, [], ◌∷◌, ◌++◌,
  arith, sym, ap, ◌∙◌,
}
use boat.Queue.{
  Shared, fresh, Event, writer_opens, writer_posts, reader_waits, reader_posts, closer_waits,
  closer_tries, closer_posts, step, run, writer_open, writer_post, reader_wait, reader_post,
  close_wait, close_try, close_post,
}

-- What is missing from the semaphore is held by someone who puts it back.
abbrev pub IsCounted : Shared → Type 0
IsCounted s = s.semaphore + s.joining + s.restoring ≡ s.opened

step-IsCounted :
    (e : Event) (s : Shared) {t : Shared} → step e s ≡ some t → IsCounted s → IsCounted t
unfolding writer_open writer_post reader_wait reader_post close_wait close_try close_post
step-IsCounted writer_opens s h v = ground arith
step-IsCounted writer_posts s h v = ground arith
step-IsCounted reader_waits s h v = ground arith
step-IsCounted reader_posts s h v = ground arith
step-IsCounted closer_waits s h v = ground arith
step-IsCounted closer_tries s h v = ground arith
step-IsCounted closer_posts s h v = ground arith

abbrev and_run : List Event → Option Shared → Option Shared
and_run es none = none
and_run es (some t) = run es t

run-cons : (e : Event) (es : List Event) (s : Shared) → run (e ∷ es) s ≡ and_run es (step e s)
unfolding run
run-cons e es s = ground arith

and_run-some :
    (es : List Event) (m : Option Shared) {t : Shared}
    → and_run es m ≡ some t
    → (u : Shared) × (m ≡ some u) × (run es u ≡ some t)
and_run-some es none h = cc
and_run-some es (some u) h = (u, refl, h)

run-IsCounted :
    (es : List Event) (s : Shared) {t : Shared} → run es s ≡ some t → IsCounted s → IsCounted t
run-IsCounted [] s h v = unfold run in (ground arith)
run-IsCounted (e ∷ es) s h v =
    let (u, q, r) = and_run-some es (step e s) (sym (run-cons e es s) ∙ h) in
    run-IsCounted es u r (step-IsCounted e s q v)

run-append :
    (es fs : List Event) (s : Shared) {t u : Shared}
    → run es s ≡ some t
    → run fs t ≡ some u
    → run (es ++ fs) s ≡ some u
run-append [] fs s {t} {u} h k = unfold run in (ground arith)
run-append (e ∷ es) fs s h k =
    let (v, q, r) = and_run-some es (step e s) (sym (run-cons e es s) ∙ h) in
    run-cons e (es ++ fs) s ∙ ap (and_run (es ++ fs)) q ∙ run-append es fs v r k

-- Whatever the order of openings, joinings and closings before: while no reader is between taking
-- the semaphore and putting it back, and no other writer is putting it back, a closing writer removes
-- the queue exactly if no open writer is left.
pub removed_by_last_writer :
    (es : List Event) {s t : Shared}
    → run es fresh ≡ some s
    → s.joining ≡ 0
    → s.restoring ≡ 0
    → step closer_tries s ≡ some t
    → (t.named ≡ false) ↔ (s.opened ≡ 0)
unfolding close_try
removed_by_last_writer es {s} h j r q =
    let c = run-IsCounted es fresh h refl in (λ n. ground arith, λ o. ground arith)

abbrev pub times : ℕ → List Event → List Event
times zero es = []
times (suc n) es = es ++ times n es

-- `n` writers open, and `n` readers take the semaphore.
writers_open :
    (n : ℕ) (s : Shared)
    → s.named ≡ true
    → run (times n (writer_opens ∷ writer_posts ∷ [])) s
      ≡ some (record s { semaphore = s.semaphore + n; opened = s.opened + n })
unfolding run writer_open writer_post
writers_open zero s h = ground arith
writers_open (suc n) s h =
    let one = record s {
      semaphore = s.semaphore + 1;
      opening = s.opening + 1 - 1;
      opened = s.opened + 1;
    } in
    ground (arith, writers_open n one h)

readers_join :
    (n : ℕ) (s : Shared)
    → s.named ≡ true
    → n ≤ s.semaphore
    → run (times n (reader_waits ∷ [])) s
      ≡ some (record s { semaphore = s.semaphore - n; joining = s.joining + n })
unfolding run reader_wait
readers_join zero s h k = ground arith
readers_join (suc n) s h k =
    let one = record s { semaphore = s.semaphore - 1; joining = s.joining + 1 } in
    ground (arith, readers_join n one h (omega arith))

-- With as many readers between the two calls as there are other open writers, the destructor of a
-- writer removes the queue while these writers, of any number, still have it open.
pub removed_while_open :
    (n : ℕ)
    → (s : Shared) × (run
          (times (suc n) (writer_opens ∷ writer_posts ∷ [])
            ++ (times n (reader_waits ∷ []) ++ (closer_waits ∷ closer_tries ∷ [])))
          fresh
        ≡ some s)
      × ((s.named ≡ false) × (s.opened ≡ n))
unfolding run close_wait close_try
removed_while_open n = (
  record {
    semaphore = 0;
    named = false;
    opening = 0;
    opened = n;
    joining = n;
    probing = 0;
    restoring = 0;
  },
  run-append (times (suc n) (writer_opens ∷ writer_posts ∷ [])) _ fresh
      (writers_open (suc n) fresh refl)
      (run-append (times n (reader_waits ∷ [])) _ _ (readers_join n _ refl (omega arith))
        (ground arith)),
  (refl, refl),
)
