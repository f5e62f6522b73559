-- ===== src/RigidWing/Parse.antt =====
-- What rigid_wing/rigid_wing.cc reads of a message that is well formed.
use boat.Prelude.{
  ◌⊎◌, ℕ, ◌+◌, ◌*◌, ◌/◌, ◌%◌, ◌<◌, ◌≡◌, ◌≢◌, ap, ap₂, ◌∙◌, List, [], ◌∷◌, some, false, get_or,
  arith,
}
use boat.Prelude.Int.{ℤ, pos, ◌+ℤ◌, ◌-ℤ◌, ◌*ℤ◌}
use boat.Prelude.Floats.{Floats}
use boat.RigidWing.{
  atoi, atoi_from, is_open, Feedback, cleared_feedback, angle_of, volts_of, parse_message,
}

-- The three digits of a number.
abbrev pub digits : ℕ → List ℤ → List ℤ
digits n rest = pos (0x30 + n / 100) ∷ pos (0x30 + n / 10 % 10) ∷ pos (0x30 + n % 10) ∷ rest

-- The message with these three numbers.
abbrev pub printed : ℕ → ℕ → ℕ → List ℤ
printed aoa servo battery =
    pos 0x5b ∷ digits aoa (pos 0x20 ∷ digits servo (pos 0x20 ∷ digits battery (pos 0x5d ∷ [])))

digit : (acc c : ℕ) → (pos acc *ℤ pos 10) +ℤ (pos (0x30 + c) -ℤ pos 0x30) ≡ pos (acc * 10 + c)
unfolding ◌*ℤ◌ ◌+ℤ◌ ◌-ℤ◌
digit acc c = ground arith

-- One round of the loop.
abbrev read_digit : ℤ → ℕ → ℤ
read_digit retval c = (retval *ℤ pos 10) +ℤ (pos (0x30 + c) -ℤ pos 0x30)

three_digits :
    (n : ℕ)
    → n < 1000
    → read_digit (read_digit (read_digit (pos 0) (n / 100)) (n / 10 % 10)) (n % 10) ≡ pos n
three_digits n h =
    ap (λ z. read_digit (read_digit z (n / 10 % 10)) (n % 10)) (digit 0 (n / 100))
    ∙ ap (λ z. read_digit z (n % 10)) (digit (0 * 10 + n / 100) (n / 10 % 10))
    ∙ digit ((0 * 10 + n / 100) * 10 + n / 10 % 10) (n % 10)
    ∙ ap pos (omega arith)

-- The three numbers below 1000 of a well formed message are read back: as an angle in degrees, as the
-- position of the servo, and as millivolts.
pub parse-printed :
    (fl : Floats) (aoa servo battery : ℕ)
    → aoa < 1000
    → servo < 1000
    → battery < 1000
    → parse_message fl (printed aoa servo battery) 13 ≡ record {
      angle_of_attack = some (angle_of fl (pos aoa));
      servo_pos = some (pos servo);
      battery = some (volts_of fl (pos battery));
    }
unfolding parse_message atoi atoi_from is_open
parse-printed fl aoa servo battery a s b =
    ap
      (λ x.
        the_feedback x
          (read_digit (read_digit (read_digit (pos 0) (servo / 100)) (servo / 10 % 10))
            (servo % 10))
          (read_digit (read_digit (read_digit (pos 0) (battery / 100)) (battery / 10 % 10))
            (battery % 10)))
      (three_digits aoa a)
    ∙ ap₂ (the_feedback (pos aoa)) (three_digits servo s) (three_digits battery b)
  where
    the_feedback : ℤ → ℤ → ℤ → Feedback fl
    the_feedback x y z = record {
      angle_of_attack = some (angle_of fl x);
      servo_pos = some y;
      battery = some (volts_of fl z);
    }

-- Whatever the other bytes are, a message of another length than 13, or without its opening bracket, clears all of
-- the fields, so that no value of an earlier message remains.
malformed_clears :
    (fl : Floats) (buf : List ℤ) (n : ℕ)
    → (n ≢ 13) ⊎ (is_open (get_or buf 0 (pos 0)) ≡ false)
    → parse_message fl buf n ≡ cleared_feedback fl
unfolding parse_message
malformed_clears fl buf n h = ground arith
