-- ===== src/Sensor/Sbus.antt =====
-- `ReadSBUS::Iterate` of sensor/read-sbus.cc, over the bytes that the serial port still delivers. A
-- read takes as many of them as are there; that the port fails or the program is shut down ends a
-- round in the source as it does here when no bytes are left.
pub mod Channels
mod Tests
use Prim.Native.Nat.{bit_and}
use boat.Prelude.{
  ℕ, zero, suc, ◌+◌, ◌-◌, ◌*◌, ◌/◌, ◌%◌, ◌^◌, Bool, true, false, not, List, [], ◌∷◌, Option, none,
  some, ltb, ◌==◌, if◌then◌else◌, length, get_or, take, drop, u8,
}

-- `msg::SBUS`.
pub record SbusMessage : Type 0 where
  pub channel : List ℕ
  pub ch17 : Bool
  pub ch18 : Bool
  pub frame_lost : Bool
  pub failsafe : Bool

-- The 11 bits from `cur_bit` on, put together from two or three bytes.
pub channel_bits : List ℕ → ℕ → ℕ
channel_bits bytes cur_bit =
    let cur_byte = cur_bit / 8 in
    let start_bit = cur_bit % 8 in
    let end_bit = (cur_bit + 11) % 8 in
    let low = get_or bytes cur_byte 0 / 2 ^ start_bit % 256 in
    if ltb end_bit 3
    then (low
        + get_or bytes (cur_byte + 1) 0 * 2 ^ (8 - start_bit)
        + (if end_bit == 0 then 0 else get_or bytes (cur_byte + 2) 0 * 2 ^ (8 - end_bit) % 256 * 8))
    else (low
        + (if end_bit == 0 then 0 else get_or bytes (cur_byte + 1) 0 * 2 ^ (8 - end_bit) % 256 * 8))

-- The loop over the channels: `count` of them, from `cur_bit` on.
pub channels : ℕ → ℕ → List ℕ → List ℕ
channels zero cur_bit bytes = []
channels (suc count) cur_bit bytes =
    channel_bits bytes cur_bit ∷ channels count (cur_bit + 11) bytes

abbrev pub flag : ℕ → ℕ → Bool
flag mask flags = not (bit_and mask flags == 0)

pub decode : List ℕ → SbusMessage
decode bytes =
    let flags = get_or bytes 22 0 in
    record {
      channel = channels 16 0 bytes;
      ch17 = flag 0x80 flags;
      ch18 = flag 0x40 flags;
      frame_lost = flag 0x20 flags;
      failsafe = flag 0x10 flags;
    }

-- Skipping to behind the start byte.
pub find_start : List ℕ → Option (List ℕ)
find_start [] = none
find_start (b ∷ port) = if b == 0x0f then some port else find_start port

-- What is sent, and what is left on the port.
pub iterate : List ℕ → Option SbusMessage × List ℕ
iterate port = elim (find_start port) [
  | none ↦ (none, [])
  | some port' ↦
      let bytes = take 24 port' in
      (if ltb (length bytes) 24 then none else some (decode bytes), drop 24 port')
]
