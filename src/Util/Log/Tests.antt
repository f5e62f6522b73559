-- ===== src/Util/Log/Tests.antt =====
-- Instances for the log file (util/logger.cc, util/log-replay.cc).
use boat.Prelude.{ℕ, suc, ◌≡◌, refl, some, List, [], ◌∷◌, length, true, arith, replicate}
use boat.Prelude.Bytes.{bytes_value, to_bytes}
use boat.Util.Log.{
  new_log, log_message, log_messages, read_start_time, read_log_message, read_all, read,
}
use boat.Util.Log.Roundtrip.{log_roundtrip}

abbrev two_messages : List (List ℕ)
two_messages = (1 ∷ 2 ∷ 3 ∷ []) ∷ [] ∷ []

written : log_messages [] two_messages ≡ 3 ∷ 0 ∷ 1 ∷ 2 ∷ 3 ∷ 0 ∷ 0 ∷ []
unfolding log_messages log_message to_bytes
written = refl

-- A file that ends in the middle of a message ends before it.
cut_off : read_all 9 (3 ∷ 0 ∷ 1 ∷ 2 ∷ []) ≡ ([], true)
unfolding read_all read_log_message read bytes_value
cut_off = refl

log_roundtrip_example :
    (rest : List ℕ) × (read_start_time (log_messages (new_log 1500) two_messages)
      ≡ some (1500, rest))
    × (read_all (suc (length rest)) rest ≡ (two_messages, true))
log_roundtrip_example = log_roundtrip 1500 two_messages (omega arith) (omega arith)

abbrev full : List ℕ
full = replicate 1024 7
