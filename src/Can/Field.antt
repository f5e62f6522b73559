-- ===== src/Can/Field.antt =====
-- `ExtractNumberField` and `IsReserved` of can/can.cc. An `int64_t` is its bit pattern, below 2 ^
-- 64, where the code shifts and masks it. A byte behind the end of the data, whose reading the
-- source leaves undefined, is 0.
pub mod Slice
pub mod Extract
pub mod Sign
pub mod Reserved
mod Tests
use Prim.Native.Nat.{bit_and, bit_or, min}
use boat.Prelude.{
  ℕ, zero, suc, ◌+◌, ◌-◌, ◌*◌, ◌/◌, ◌%◌, ◌^◌, Bool, true, false, not, ◌&&◌, ◌||◌, List, [], ◌∷◌,
  ltb, ◌==◌, if◌then◌else◌, drop, u8, u64, add64, sub64, mul64,
}
use boat.Prelude.Int.{ℤ, pos, negsuc, ◌-ℤ◌, leb_ℤ, ltb_ℤ}

-- The special values of `Field::resolution` that the decoder tells apart, and the positive ones.
pub data Resolution : Type 0 where
  scaled : ℕ → Resolution
  latitude longitude date time lookup unused : Resolution

-- `Field`, less its texts. A positive resolution is named by a number.
pub record Field : Type 0 where
  pub size : ℕ
  pub resolution : Resolution
  pub has_sign : Bool

-- What the loop of `ExtractNumberField` carries along.
pub record Scan : Type 0 where
  pub retval : ℕ
  pub maxval : ℕ
  pub magnitude : ℕ

abbrev pub byte_bits : ℕ → ℕ → ℕ
byte_bits start_bit bits_left = min (8 - start_bit) bits_left

abbrev pub mask : ℕ → ℕ → ℕ
mask start_bit bits =
    let end_gap = sub64 (8 - bits) start_bit in
    u8 (bit_and (255 / 2 ^ end_gap) (255 * 2 ^ start_bit))

abbrev pub masked : ℕ → ℕ → ℕ → ℕ
masked byte start_bit bits = bit_and (mask start_bit bits) byte / 2 ^ start_bit

abbrev pub head_byte : List ℕ → ℕ
head_byte [] = 0
head_byte (b ∷ bs) = b

pub scan_byte : ℕ → ℕ → ℕ → Scan → Scan
scan_byte byte start_bit bits s = record {
  retval = add64 s.retval (mul64 (masked byte start_bit bits) (2 ^ s.magnitude));
  maxval = add64 (mul64 s.maxval (2 ^ bits)) (mask start_bit bits / 2 ^ start_bit);
  magnitude = s.magnitude + bits;
}

-- `while (bits_left)`, on fuel. Each round takes a bit at least.
pub scan : ℕ → ℕ → ℕ → List ℕ → Scan → Scan
unfolding scan_byte
scan zero bits_left start_bit bytes s = s
scan (suc fuel) bits_left start_bit bytes s =
    let bits = byte_bits start_bit bits_left in
    let rest =
      scan fuel (bits_left - bits) 0 (drop 1 bytes)
        (scan_byte (head_byte bytes) start_bit bits s) in
    if bits_left == 0 then s else rest

-- `x >> k` on a pattern, which copies the sign, and `~x`.
abbrev pub sar64 : ℕ → ℕ → ℕ
sar64 x k = if ltb x (2 ^ 63) then x / 2 ^ k else 2 ^ 64 - 1 - (2 ^ 64 - 1 - x) / 2 ^ k

abbrev pub not64 : ℕ → ℕ
not64 x = 2 ^ 64 - 1 - x

pub sign_extend : Bool → Scan → ℕ × ℕ
sign_extend false s = (s.retval, s.maxval)
sign_extend true s =
    let maxval = sar64 s.maxval 1 in
    (
      (if sar64 s.retval (s.magnitude - 1) == 0 then s.retval else bit_or s.retval (not64 maxval)),
      maxval,
    )

-- The value of a field and its largest value.
pub extract_number_field : Field → List ℕ → ℕ → ℕ × ℕ
unfolding scan sign_extend
extract_number_field f bytes start_bit = sign_extend f.has_sign (
    scan f.size f.size (start_bit % 8) (drop (start_bit / 8) bytes)
      (record { retval = 0; maxval = 0; magnitude = 0 }))

-- The integer that a pattern of 64 bits stands for.
abbrev pub signed64 : ℕ → ℤ
signed64 w = if ltb w (2 ^ 63) then pos w else negsuc (2 ^ 64 - w - 1)

pub is_reserved : ℤ → ℤ → Bool
is_reserved val maxval =
    (leb_ℤ (pos 15) maxval && leb_ℤ (maxval -ℤ val) (pos 2))
    || (ltb_ℤ (pos 1) maxval && leb_ℤ (maxval -ℤ val) (pos 1))
    || (leb_ℤ maxval val && leb_ℤ val maxval)
