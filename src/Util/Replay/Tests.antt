-- ===== src/Util/Replay/Tests.antt =====
-- Instances for the replay of a log (util/log-replay.cc).
use boat.Prelude.{
  ℕ, suc, ◌≡◌, refl, none, some, List, [], ◌∷◌, map, true, false, ltb, ◌==◌, if◌then◌else◌, arith,
  inl,
}
use boat.Util.Replay.{World, Replay, Field, time, content, replay}
use boat.Util.Replay.Message.{IsValid}
use boat.Util.Replay.Order.{Stamped, Delivered, AllStamped, replay_in_order}

-- A message is its time and its queue. Queue 2 is renamed to 3.
abbrev fields_of : List ℕ → List Field
fields_of [] = []
fields_of (t ∷ rest) = time t ∷ map content rest

abbrev world : World
world = record {
  list_fields = fields_of;
  process = λ q buf. buf;
  is_field = λ q. true;
  moved = λ q q' buf. 100 ∷ q' ∷ [];
  rename = λ q. if q == 2 then some 3 else none;
  default_ignore = false;
  before_start = λ t. ltb t 5;
  wake = λ t. suc t;
}

abbrev fresh : Replay
fresh = record { msg_time = 0; cur_time = 0; queue_name = 0; queues = λ q. none }

abbrev log : List Stamped
log =
    record { buf = 4 ∷ 1 ∷ []; stamp = 4; queue = 1 }
    ∷ record { buf = 9 ∷ 2 ∷ []; stamp = 9; queue = 2 }
    ∷ []

log-AllStamped : AllStamped world log
log-AllStamped = (
  record { fields = refl; named = ground arith; movable = λ q' e. refl },
  (record { fields = refl; named = ground arith; movable = λ q' e. refl }, tt),
)

fresh-IsValid : IsValid world fresh
unfolding IsValid
fresh-IsValid q = inl refl

replay_in_order_example :
    ((replay world (map (λ m. m.buf) log) fresh).1 ≡ true)
    × Delivered world log (replay world (map (λ m. m.buf) log) fresh).0
replay_in_order_example =
    replay_in_order world log fresh log-AllStamped fresh-IsValid (λ t. omega arith)
