-- ===== src/Sensor/Sbus/Channels.antt =====
-- What the channels of sensor/read-sbus.cc are: slices of 11 bits of the data.
use boat.Prelude.{
  ℕ, zero, suc, ◌+◌, ◌-◌, ◌*◌, ◌/◌, ◌%◌, ◌^◌, ◌<◌, ◌≡◌, ◌≢◌, refl, take-append_left,
  drop-append_left, le→ltb, ap, ap₂, sym, ◌∙◌, Bool, List, [], ◌∷◌, ◌++◌, ltb, ◌==◌, Option, none,
  some, if◌then◌else◌, length, get_or, take, drop, arith,
}
use boat.Prelude.Bytes.{bytes_value, AllBytes, slice, value-start}
use boat.Sensor.Sbus.{channel_bits, channels, decode, find_start, iterate, SbusMessage}

bytes_value-next :
    (k : ℕ) (bytes : List ℕ)
    → bytes_value (drop k bytes) ≡ get_or bytes k 0 + 256 * bytes_value (drop (suc k) bytes)
unfolding bytes_value
bytes_value-next zero [] = refl
bytes_value-next zero (b ∷ bytes) = refl
bytes_value-next (suc k) [] = refl
bytes_value-next (suc k) (b ∷ bytes) = bytes_value-next k bytes

bytes_value-drop :
    (k n : ℕ) (bytes : List ℕ)
    → suc k ≡ n
    → bytes_value (drop k bytes) ≡ get_or bytes k 0 + 256 * bytes_value (drop n bytes)
bytes_value-drop k n bytes e =
    bytes_value-next k bytes ∙ ap (λ m. get_or bytes k 0 + 256 * bytes_value (drop m bytes)) e

AllBytes-get : (k : ℕ) (bytes : List ℕ) → AllBytes bytes → get_or bytes k 0 < 256
AllBytes-get k [] h = omega arith
AllBytes-get zero (b ∷ bytes) h = h.0
AllBytes-get (suc k) (b ∷ bytes) h = AllBytes-get k bytes h.1

-- What is put together of three bytes, from the bit `start` of the first on.
abbrev assembled : ℕ → ℕ → ℕ → ℕ → ℕ → ℕ
assembled a b c start end =
    let low = a / 2 ^ start % 256 in
    if ltb end 3
    then (low + b * 2 ^ (8 - start) + (if end == 0 then 0 else c * 2 ^ (8 - end) % 256 * 8))
    else (low + (if end == 0 then 0 else b * 2 ^ (8 - end) % 256 * 8))

joined :
    (a b c rest start : ℕ)
    → a < 256
    → b < 256
    → c < 256
    → start < 8
    → assembled a b c start ((start + 11) % 8)
      ≡ (a + 256 * (b + 256 * (c + 256 * rest))) / 2 ^ start % 2 ^ 11
joined a b c rest zero ha hb hc s = omega arith
joined a b c rest (suc zero) ha hb hc s = omega arith
joined a b c rest (suc (suc zero)) ha hb hc s = omega arith
joined a b c rest (suc (suc (suc zero))) ha hb hc s = omega arith
joined a b c rest (suc (suc (suc (suc zero)))) ha hb hc s = omega arith
joined a b c rest (suc (suc (suc (suc (suc zero))))) ha hb hc s = omega arith
joined a b c rest (suc (suc (suc (suc (suc (suc zero)))))) ha hb hc s = omega arith
joined a b c rest (suc (suc (suc (suc (suc (suc (suc zero))))))) ha hb hc s = omega arith
joined a b c rest (suc (suc (suc (suc (suc (suc (suc (suc start)))))))) ha hb hc s =
    absurd (omega arith)

channel_bits_lem :
    (bytes : List ℕ) (cur_bit : ℕ)
    → AllBytes bytes
    → channel_bits bytes cur_bit ≡ slice bytes cur_bit 11
unfolding channel_bits
channel_bits_lem bytes cur_bit h =
    let k = cur_bit / 8 in
    let start = cur_bit % 8 in
    let a = get_or bytes k 0 in
    let b = get_or bytes (k + 1) 0 in
    let c = get_or bytes (k + 2) 0 in
    let e : (cur_bit + 11) % 8 ≡ (start + 11) % 8 = omega arith in
    let three : a + 256 * (b + 256 * (c + 256 * bytes_value (drop (k + 3) bytes)))
        ≡ bytes_value (drop k bytes) =
      omega (
        arith,
        bytes_value-drop k (k + 1) bytes (omega arith),
        bytes_value-drop (k + 1) (k + 2) bytes (omega arith),
        bytes_value-drop (k + 2) (k + 3) bytes (omega arith),
      ) in
    ap (assembled a b c start) e
    ∙ joined a b c (bytes_value (drop (k + 3) bytes)) start (AllBytes-get k bytes h)
        (AllBytes-get (k + 1) bytes h) (AllBytes-get (k + 2) bytes h) (omega arith)
    ∙ ap (λ v. v / 2 ^ start % 2 ^ 11) three
    ∙ ap (λ v. v % 2 ^ 11) (value-start bytes cur_bit h)

channels_lem :
    (count cur_bit : ℕ) (bytes : List ℕ) (i : ℕ)
    → AllBytes bytes
    → i < count
    → get_or (channels count cur_bit bytes) i 0 ≡ slice bytes (cur_bit + 11 * i) 11
unfolding channels
channels_lem zero cur_bit bytes i h b = absurd (omega arith)
channels_lem (suc count) cur_bit bytes zero h b =
    channel_bits_lem bytes cur_bit h ∙ ap (λ n. slice bytes n 11) (omega arith)
channels_lem (suc count) cur_bit bytes (suc i) h b =
    channels_lem count (cur_bit + 11) bytes i h (omega arith)
    ∙ ap (λ n. slice bytes n 11) (omega arith)

length-channels :
    (count cur_bit : ℕ) (bytes : List ℕ) → length (channels count cur_bit bytes) ≡ count
unfolding channels
length-channels zero cur_bit bytes = refl
length-channels (suc count) cur_bit bytes = ap suc (length-channels count (cur_bit + 11) bytes)

-- A decoded frame has sixteen channels, and channel `i` is the number in the 11 bits from `11 * i`
-- on of the little-endian number that the frame's bytes stand for.
pub decode_lem :
    (bytes : List ℕ)
    → AllBytes bytes
    → (length (decode bytes).channel ≡ 16)
      × ((i : ℕ) → i < 16 → get_or (decode bytes).channel i 0 ≡ slice bytes (11 * i) 11)
unfolding decode
decode_lem bytes h = (
  length-channels 16 0 bytes,
  λ i b. channels_lem 16 0 bytes i h b ∙ ap (λ n. slice bytes n 11) (omega arith),
)

-- Bytes before the start byte.
abbrev pub IsNoise : List ℕ → Type 0
IsNoise [] = Unit {0}
IsNoise (b ∷ bs) = (b ≢ 0x0f) × IsNoise bs

find_start-append :
    (noise port : List ℕ) → IsNoise noise → find_start (noise ++ 0x0f ∷ port) ≡ some port
unfolding find_start
find_start-append [] port h = refl
find_start-append (b ∷ noise) port h = ground (arith, find_start-append noise port)

-- What is sent for the bytes of one read.
abbrev sent : List ℕ → Option SbusMessage
sent bytes = if ltb (length bytes) 24 then none else some (decode bytes)

iterate_found :
    (noise port : List ℕ)
    → IsNoise noise
    → iterate (noise ++ 0x0f ∷ port) ≡ (sent (take 24 port), drop 24 port)
unfolding iterate
iterate_found noise port h = rw (iterate, find_start-append noise port h) refl

-- After any bytes that are no start byte, a start byte and 24 bytes are decoded and sent, and the
-- next round begins behind them.
frame_found :
    (noise frame rest : List ℕ)
    → IsNoise noise
    → length frame ≡ 24
    → iterate (noise ++ 0x0f ∷ (frame ++ rest)) ≡ (some (decode frame), rest)
frame_found noise frame rest h full =
    let t : take 24 (frame ++ rest) ≡ frame =
      ap (λ n. take n (frame ++ rest)) (sym full) ∙ take-append_left frame rest in
    let d : drop 24 (frame ++ rest) ≡ rest =
      ap (λ n. drop n (frame ++ rest)) (sym full) ∙ drop-append_left frame rest in
    iterate_found noise (frame ++ rest) h
    ∙ ap₂ (λ u v. (sent u, v)) t d
    ∙ ap (λ (b : Bool). (if b then none else some (decode frame), rest))
        (le→ltb (length frame) 24 (omega arith))
