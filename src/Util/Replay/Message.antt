-- ===== src/Util/Replay/Message.antt =====
-- What a replay (util/log-replay.cc) makes of one message that has a time and one content.
use boat.Prelude.{
  ℕ, ◌≡◌, ◌≢◌, ◌⊎◌, inl, inr, refl, ap, sym, ◌∙◌, List, [], ◌∷◌, Option, none, some, true, false,
  ◌&&◌, ltb, ◌==◌, if◌then◌else◌, arith, ==_iff, Option-cases, Bool-cases,
}
use boat.Util.Replay.{
  time, content, World, Replay, Sent, went_on, put, target, see_field, see_fields, send_on,
  rename_and_send, replay_message,
}

module _ (w : World) where
  open w use {list_fields, process, is_field, moved, rename, default_ignore, before_start, wake}

  -- A message with a time and one content, on a queue that has a name and may be renamed.
  pub record IsStamped (buf : List ℕ) (t q : ℕ) : Type 0 where
    pub fields : list_fields buf ≡ time t ∷ content q ∷ []
    pub named : q ≢ 0
    pub movable : (q' : ℕ) → rename q ≡ some q' → (is_field q && is_field q') ≡ true

  -- The queues that are open are those that messages are replayed on.
  unfoldable pub IsValid : Replay → Type 0
  IsValid r = (q : ℕ) → (r.queues q ≡ none) ⊎ (r.queues q ≡ some (target w q))

  -- What a stamped message is sent as.
  pub renamed : ℕ → List ℕ → List ℕ
  renamed q buf = elim (rename q) [
    | none ↦ process q buf
    | some q' ↦ if q' == q then process q buf else moved q q' (process q buf)
  ]

  -- The queue of a name is open, if there is one to be open.
  IsOpen : ℕ → Replay → Type 0
  IsOpen q r = (r.queues q ≡ some (target w q)) ⊎ ((r.queues q ≡ none) × (target w q ≡ 0))

  put-IsValid :
      (r : Replay) (q n : ℕ)
      → IsValid r
      → n ≡ target w q
      → IsValid (record r { queues = put w r.queues q n })
  unfolding IsValid
  put-IsValid r q n v e k = elim (Bool-cases (k == q)) [
    | inl same ↦ inr (rw same (ap some (e ∙ ap (target w) (sym ((==_iff k q).0 same)))))
    | inr other ↦ rw other (v k)
  ]

  see_content :
      (r : Replay) (buf : List ℕ) (q : ℕ)
      → IsValid r
      → (qs : ℕ → Option ℕ) × (see_field w (content q) r buf
          ≡ (record r { queue_name = q; queues = qs }, process q buf))
        × IsValid (record r { queue_name = q; queues = qs })
        × IsOpen q (record r { queue_name = q; queues = qs })
  unfolding see_field IsValid IsOpen
  see_content r buf q v = elim (Option-cases (r.queues q)) [
    | inr (n, e) ↦ (r.queues, rw (see_field, e) refl, v, inl (opened n e))
    | inl e ↦ elim (Bool-cases (target w q == 0)) [
      | inl z ↦ (r.queues, rw (see_field, e, z) refl, v, inr (e, (==_iff _ _).0 z))
      | inr nz ↦ (
        put w r.queues q (target w q),
        rw (see_field, e, nz) refl,
        put-IsValid r q (target w q) v refl,
        inl (rw ((==_iff q q).1 refl) refl),
      )
    ]
  ]
    where
      opened : (n : ℕ) → r.queues q ≡ some n → r.queues q ≡ some (target w q)
      opened n e = ground (arith, v q)

  send_open :
      (r : Replay) (buf : List ℕ)
      → r.queue_name ≢ 0
      → IsValid r
      → IsOpen r.queue_name r
      → (r' : Replay) × (send_on w r buf
          ≡ went_on r' (
              if target w r.queue_name == 0
              then []
              else (record { queue = target w r.queue_name; bytes = buf; at = r.cur_time } ∷ [])))
        × IsValid r'
        × (r'.cur_time ≡ r.cur_time)
  unfolding send_on IsValid IsOpen
  send_open r buf n v (inl o) = elim (Bool-cases (target w r.queue_name == 0)) [
    | inl z ↦ (r, rw (send_on, named, o, z) refl, v, refl)
    | inr nz ↦ (r, rw (send_on, named, o, nz) refl, v, refl)
  ]
    where
      named : (r.queue_name == 0) ≡ false
      named = ground arith
  send_open r buf n v (inr (e, z)) = (
    record r { queues = put w r.queues r.queue_name 0 },
    rw (send_on, named, e, z) refl,
    put-IsValid r r.queue_name 0 v (sym z),
    refl,
  )
    where
      named : (r.queue_name == 0) ≡ false
      named = ground arith

  -- What is sent of a message, at a time.
  abbrev pub delivery : ℕ → List ℕ → ℕ → List Sent
  delivery q buf now =
      if target w q == 0
      then []
      else (record { queue = target w q; bytes = renamed q buf; at = now } ∷ [])

  rename_open :
      (r : Replay) (buf : List ℕ) (t : ℕ)
      → IsStamped buf t r.queue_name
      → IsValid r
      → IsOpen r.queue_name r
      → (r' : Replay) × (rename_and_send w r (process r.queue_name buf)
          ≡ went_on r' (delivery r.queue_name buf r.cur_time))
        × IsValid r'
  unfolding rename_and_send renamed
  rename_open r buf t s v o = elim (Option-cases (rename r.queue_name)) [
    | inl e ↦
        let (r', d, v', c) = send_open r (process r.queue_name buf) s.named v o in
        (r', rw (rename_and_send, renamed, e) d, v')
    | inr (q', e) ↦ elim (Bool-cases (q' == r.queue_name)) [
      | inl same ↦
          let (r', d, v', c) = send_open r (process r.queue_name buf) s.named v o in
          (r', rw (rename_and_send, renamed, e, same) d, v')
      | inr other ↦
          let (r', d, v', c) =
            send_open r (moved r.queue_name q' (process r.queue_name buf)) s.named v o in
          (r', rw (rename_and_send, renamed, e, other, s.movable q' e) d, v')
    ]
  ]

  -- The time of sending: that of the message, or the present if that is later.
  abbrev pub send_time : ℕ → ℕ → ℕ
  send_time now t = if ltb now t then wake t else now

  -- The wait for the time of the message.
  abbrev waited : Replay → Replay
  waited r = if ltb r.cur_time r.msg_time then record r { cur_time = wake r.msg_time } else r

  wait_and_send :
      (r : Replay) (buf : List ℕ) (t : ℕ)
      → IsStamped buf t r.queue_name
      → IsValid r
      → IsOpen r.queue_name r
      → (r' : Replay) × (rename_and_send w (waited r) (process r.queue_name buf)
          ≡ went_on r' (delivery r.queue_name buf (send_time r.cur_time r.msg_time)))
        × IsValid r'
  unfolding IsValid IsOpen
  wait_and_send r buf t s v o = elim (Bool-cases (ltb r.cur_time r.msg_time)) [
    | inl early ↦
        let (r', e, v') = rename_open (record r { cur_time = wake r.msg_time }) buf t s v o in
        (r', rw early e, v')
    | inr late ↦ let (r', e, v') = rename_open r buf t s v o in (r', rw late e, v')
  ]

  see_both :
      (r : Replay) (buf : List ℕ) (t q : ℕ)
      → see_fields w (time t ∷ content q ∷ []) r buf
        ≡ see_field w (content q) (record r { msg_time = t }) buf
  unfolding see_fields see_field
  see_both r buf t q = refl

  pub stamped_once :
      (r : Replay) (buf : List ℕ) (t q : ℕ)
      → IsStamped buf t q
      → IsValid r
      → (r' : Replay) × (replay_message w r buf
          ≡ went_on r' (if before_start t then [] else delivery q buf (send_time r.cur_time t)))
        × IsValid r'
  unfolding replay_message IsValid
  stamped_once r buf t q s v =
      let (qs, e, v', o) = see_content (record r { msg_time = t }) buf q v in
      let r1 = record r { msg_time = t; queue_name = q; queues = qs } in
      let (r2, e2, v2) = wait_and_send r1 buf t s v' o in
      elim (Bool-cases (before_start t)) [
        | inl before ↦ (r1, rw (replay_message, s.fields, see_both r buf t q, e, before) refl, v')
        | inr after ↦ (r2, rw (replay_message, s.fields, see_both r buf t q, e, after) e2, v2)
      ]
