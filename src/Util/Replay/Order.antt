-- ===== src/Util/Replay/Order.antt =====
-- What a replay (util/log-replay.cc) sends of a log: its messages in their order, none before its
-- time.
use boat.Prelude.{
  ℕ, ◌≤◌, ◌≡◌, ◌⊎◌, inl, inr, ◌≢◌, refl, List, [], ◌∷◌, ◌++◌, map, true, false, Bool-cases, ltb,
  ◌==◌, ==_iff, if◌then◌else◌, arith,
}
use boat.Util.Replay.{World, Replay, Sent, target, replay}
use boat.Util.Replay.Message.{IsStamped, IsValid, renamed, delivery, send_time, stamped_once}

-- A message with its time and queue.
pub record Stamped : Type 0 where
  pub buf : List ℕ
  pub stamp : ℕ
  pub queue : ℕ

module _ (w : World) where
  open w use {before_start, wake}

  -- The log beside what is sent of it: a message is left out if it is before the start or its queue
  -- is not replayed, and else sent on its queue, not before its time.
  pub data Delivered : List Stamped → List Sent → Type 0 where
    at_end : Delivered [] []
    skipped :
        {m : Stamped} {log : List Stamped} {out : List Sent}
        → (before_start m.stamp ≡ true) ⊎ (target w m.queue ≡ 0)
        → Delivered log out
        → Delivered (m ∷ log) out
    delivered :
        {m : Stamped} {log : List Stamped} {out : List Sent} {now : ℕ}
        → before_start m.stamp ≡ false
        → target w m.queue ≢ 0
        → m.stamp ≤ now
        → Delivered log out
        → Delivered
            (m ∷ log)
            (record { queue = target w m.queue; bytes = renamed w m.queue m.buf; at = now } ∷ out)

  abbrev pub AllStamped : List Stamped → Type 0
  AllStamped [] = Unit {0}
  AllStamped (m ∷ log) = IsStamped w m.buf m.stamp m.queue × AllStamped log

  not_early : ((t : ℕ) → t ≤ wake t) → (now t : ℕ) → t ≤ send_time w now t
  not_early on_time now t = elim (Bool-cases (ltb now t)) [
    | inl early ↦ rw early (on_time t)
    | inr late ↦ rw late (ground arith)
  ]

  one_delivery :
      (m : Stamped) (log : List Stamped) (out : List Sent) (now : ℕ)
      → m.stamp ≤ now
      → Delivered log out
      → Delivered
          (m ∷ log)
          ((if before_start m.stamp then [] else delivery w m.queue m.buf now) ++ out)
  one_delivery m log out now e d = elim (Bool-cases (before_start m.stamp)) [
    | inl before ↦ rw before (skipped (inl before) d)
    | inr after ↦ elim (Bool-cases (target w m.queue == 0)) [
      | inl z ↦ rw (after, z) (skipped (inr ((==_iff _ _).0 z)) d)
      | inr nz ↦ rw (after, nz) (delivered after (ground arith) e d)
    ]
  ]

  -- If every message of the log has a time and a queue that has a name and can be renamed as asked,
  -- and the clock wakes no sleeper early, the replay comes to the end of the log and sends the
  -- messages in their order.
  pub replay_in_order :
      (log : List Stamped) (r : Replay)
      → AllStamped log
      → IsValid w r
      → ((t : ℕ) → t ≤ wake t)
      → ((replay w (map (λ m. m.buf) log) r).1 ≡ true)
        × Delivered log (replay w (map (λ m. m.buf) log) r).0
  unfolding replay
  replay_in_order [] r s v on_time = (refl, at_end)
  replay_in_order (m ∷ log) r s v on_time =
      let (r', e, v') = stamped_once w r m.buf m.stamp m.queue s.0 v in
      let (running, d) = replay_in_order log r' s.1 v' on_time in
      rw (replay, e)
        (
          running,
          one_delivery m log _ (send_time w r.cur_time m.stamp)
              (not_early on_time r.cur_time m.stamp) d,
        )
