-- ===== src/Sensor/Sbus/Tests.antt =====
-- Instances for the remote control's receiver (sensor/read-sbus.cc).
use boat.Prelude.{ℕ, ◌*◌, ◌<◌, ◌≡◌, refl, List, [], ◌∷◌, length, get_or, arith}
use boat.Prelude.Bytes.{slice}
use boat.Sensor.Sbus.{decode, channels, channel_bits}
use boat.Sensor.Sbus.Channels.{decode_lem}

-- Every channel at 1024, but the second at 1023; channel 17 is on.
abbrev frame : List ℕ
frame =
    0x00 ∷ 0xfc ∷ 0x1f ∷ 0x00 ∷ 0x01 ∷ 0x08 ∷ 0x40 ∷ 0x00 ∷ 0x02 ∷ 0x10 ∷ 0x80 ∷ 0x00 ∷ 0x04 ∷ 0x20
    ∷ 0x00 ∷ 0x01 ∷ 0x08 ∷ 0x40 ∷ 0x00 ∷ 0x02 ∷ 0x10 ∷ 0x80 ∷ 0x80 ∷ 0x00 ∷ []

second_channel : get_or (decode frame).channel 1 0 ≡ 1023
unfolding decode channels channel_bits
second_channel = refl

decode_lem_example :
    (length (decode frame).channel ≡ 16)
    × ((i : ℕ) → i < 16 → get_or (decode frame).channel i 0 ≡ slice frame (11 * i) 11)
decode_lem_example = decode_lem frame (omega arith)
