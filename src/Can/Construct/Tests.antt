-- ===== src/Can/Construct/Tests.antt =====
-- Instances for the messages that are sent (can/can.cc, can/can_test.cc).
use boat.Prelude.{none, some, ℕ, ◌*◌, ◌≡◌, refl, false, List, [], ◌∷◌, arith, replicate}
use boat.Can.Id.{CanId}
use boat.Can.Field.{Field, scaled}
use boat.Prelude.Int.{pos}
use boat.Can.Decode.{times, decode_and_send}
use boat.Can.Construct.Roundtrip.{sent_value_decoded}
use boat.Can.Packet.{CanMessage, Pgn, Frame}
use boat.Can.Construct.{constructed, fault, construct_message}
use boat.Can.Construct.Laws.{AllWhole, total, long_message_overruns}

abbrev field : ℕ → Field
field size = record { size = size; resolution = scaled 1; has_sign = false }

-- A PWM message of three bytes.
abbrev pwm : Pgn
pwm = record { pgn = 65282; size = 8; fields = field 8 ∷ field 16 ∷ [] }

abbrev long : Pgn
long = record { pgn = 65282; size = 9; fields = field 64 ∷ field 8 ∷ [] }

abbrev found : CanId
found = record {
  source = 0;
  ps = 7;
  pf = 0;
  dp = 0;
  reserved = 1;
  priority = 0;
  unused = 3;
  eff_ident = 0;
}

abbrev garbage : List ℕ
garbage = replicate 8 0x5a

abbrev wire : ℕ → ℕ
wire k = 0x102 * k

abbrev frame : Frame
frame = record {
  can_id = 0x94ff0215;
  can_dlc = 8;
  bytes = 0x02 ∷ 0x04 ∷ 0x02 ∷ 0xff ∷ 0xff ∷ 0xff ∷ 0xff ∷ 0xff ∷ [];
}

long_message_overruns_example : construct_message long wire found garbage ≡ fault
unfolding AllWhole total
long_message_overruns_example =
    long_message_overruns long wire found garbage
      ((1, refl), refl, omega arith, ((1, refl), refl, omega arith, tt)) (omega arith) refl

abbrev receiver : CanMessage
receiver = record { pgn = pwm; is_long = false; len = 8; base = 0; bytes = [] }

sent_value_decoded_example :
    (frame : Frame) × (construct_message pwm wire found garbage ≡ constructed frame)
    × (decode_and_send (record receiver { pgn = pwm; bytes = frame.bytes }) (λ k. none) 2
        ≡ some (times (pos 0x204) 1))
unfolding AllWhole total
sent_value_decoded_example =
    sent_value_decoded pwm wire found garbage (field 8 ∷ []) [] (field 16) 1 receiver (λ k. none)
      refl ((1, refl), refl, omega arith, ((1, refl), refl, omega arith, tt)) (omega arith) refl
      (omega arith) refl refl (omega arith) (omega arith) (omega arith)
