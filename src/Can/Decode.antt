-- ===== src/Can/Decode.antt =====
-- `CanNode::DecodeAndSend` of can/can.cc: the fields of a message, one after another, are set in
-- the protocol buffer that its queue sends. That buffer is a function from field numbers to values.
pub mod Fields
use boat.Prelude.{
  ℕ, zero, suc, ◌+◌, ◌-◌, ◌*◌, ◌/◌, ◌%◌, ◌^◌, ◌<◌, Bool, true, false, not, Option, none, some, List,
  [], ◌∷◌, ltb, ◌==◌, if◌then◌else◌, take, drop,
}
use boat.Prelude.Int.{ℤ, pos, negsuc}
use boat.Prelude.Bytes.{bytes_value}
use boat.Can.Field.{
  Resolution, scaled, latitude, longitude, date, time, lookup, unused, Field, extract_number_field,
  signed64, is_reserved,
}
use boat.Can.Packet.{CanMessage}

-- A number times the resolution of its field, or times the resolution of a position of 32 or 64
-- bits, or as it is.
pub data Value : Type 0 where
  times : ℤ → ℕ → Value
  lat_long : ℤ → Value
  lat_long_64 : ℤ → Value
  whole : ℤ → Value

abbrev pub Store : Type 0
Store = ℕ → Option Value

-- `SetProtoNumberField`.
abbrev pub set_field : Store → ℕ → Value → Store
set_field store n v k = if k == n then some v else store k

-- `memcpy` of `count` bytes into an unsigned integer.
abbrev pub word_at : ℕ → List ℕ → ℕ → ℕ
word_at count bytes cur_bit = bytes_value (take count (drop (cur_bit / 8) bytes))

abbrev pub signed32 : ℕ → ℤ
signed32 n = if ltb n (2 ^ 31) then pos n else negsuc (2 ^ 32 - n - 1)

unfoldable pub lat_long_field : Field → List ℕ → ℕ → Option Value
lat_long_field f bytes cur_bit =
    if not (cur_bit % 8 == 0)
    then some (whole (pos 0))
    else if f.size == 32
    then (let short_val = signed32 (word_at 4 bytes cur_bit) in
        if is_reserved short_val (pos (2 ^ 31 - 1)) then none else some (lat_long short_val))
    else if f.size == 64
    then (let int_val = signed64 (word_at 8 bytes cur_bit) in
        if is_reserved int_val (pos (2 ^ 63 - 1)) then none else some (lat_long_64 int_val))
    else some (whole (pos 0))

-- The value that a field is set to, if it is set.
pub decode_field : Field → List ℕ → ℕ → Option Value
decode_field f bytes cur_bit = elim f.resolution [
  | scaled n ↦
      let (val, max_val) = extract_number_field f bytes cur_bit in
      if is_reserved (signed64 val) (signed64 max_val) then none else some (times (signed64 val) n)
  | latitude ↦ lat_long_field f bytes cur_bit
  | longitude ↦ lat_long_field f bytes cur_bit
  | date ↦ some (whole (pos (word_at 2 bytes cur_bit)))
  | time ↦ some (whole (pos (word_at 4 bytes cur_bit)))
  | lookup ↦
      let (val, max_val) = extract_number_field f bytes cur_bit in
      if is_reserved (signed64 val) (signed64 max_val) then none else some (whole (signed64 val))
  | unused ↦ none
]

abbrev pub set_decoded : Store → ℕ → Option Value → Store
set_decoded store n none = store
set_decoded store n (some v) = set_field store n v

-- The loop over the fields from number `i + 1` on.
pub decode_fields : ℕ → List Field → List ℕ → ℕ → Store → Store
decode_fields i [] bytes cur_bit store = store
decode_fields i (f ∷ fs) bytes cur_bit store =
    decode_fields (i + 1) fs bytes (cur_bit + f.size)
      (set_decoded store (i + 1) (decode_field f bytes cur_bit))

-- What is sent, which is kept for the next message of the queue.
pub decode_and_send : CanMessage → Store → Store
decode_and_send m store = decode_fields 0 m.pgn.fields m.bytes 0 store
