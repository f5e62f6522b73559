-- ===== src/Can/Field/Tests.antt =====
-- Instances for the reading of fields (can/can.cc, can/can_test.cc).
use boat.Prelude.{ℕ, ◌-◌, ◌^◌, ◌/◌, ◌≡◌, refl, Bool, true, false, List, [], ◌∷◌, arith}
use boat.Prelude.Int.{negsuc}
use boat.Can.Field.{Field, scaled, extract_number_field, signed64}
use boat.Prelude.Bytes.{slice}
use boat.Can.Field.Sign.{signed_field, twos_complement}

abbrev field : ℕ → Bool → Field
field size has_sign = record { size = size; resolution = scaled 1; has_sign = has_sign }

abbrev bytes : List ℕ
bytes = 0x12 ∷ 0xfe ∷ 0xff ∷ 0x03 ∷ 0x80 ∷ 0 ∷ 0 ∷ 0 ∷ []

-- 13 bits from bit 3 on.
odd_bits : extract_number_field (field 13 false) bytes 3 ≡ (0xfe12 / 8, 8191)
unfolding extract_number_field
odd_bits = refl

-- 16 bits in two's complement.
minus_two : signed64 (extract_number_field (field 16 true) bytes 8).0 ≡ negsuc 1
unfolding extract_number_field
minus_two = refl

signed_field_example :
    let (retval, maxval) = extract_number_field (field 16 true) bytes 8 in
    (signed64 retval ≡ twos_complement 15 (slice bytes 8 16)) × (maxval ≡ 2 ^ 15 - 1)
signed_field_example = signed_field (field 16 true) bytes 8 15 refl refl (omega arith) (omega arith)
