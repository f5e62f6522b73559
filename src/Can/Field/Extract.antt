-- ===== src/Can/Field/Extract.antt =====
-- `ExtractNumberField` of can/can.cc reads the bits of its field.
use native.Mathlib.Nat.{mod-one, mod-lt}
use mathlib.Core.Path.{subst₂}
use boat.Prelude.{
  ℕ, zero, suc, ◌+◌, ◌-◌, ◌*◌, ◌/◌, ◌%◌, ◌^◌, ◌≤◌, ◌<◌, ◌≡◌, refl, ap, ◌∙◌, false, List, [], ◌∷◌,
  ◌==◌, arith, drop,
}
use boat.Prelude.Bits.{pow-add, pow-le, pow-pos}
use boat.Can.Field.{
  Field, Scan, mask, masked, byte_bits, head_byte, scan_byte, scan, sign_extend,
  extract_number_field,
}
use boat.Prelude.Bytes.{bytes_value, AllBytes, slice, value-start, drop-AllBytes}
use boat.Can.Field.Slice.{masked_lem, slice_step}

-- What the loop has read: `value` in its low `width` bits, and the largest number of as many.
pub record Holds (s : Scan) (width value : ℕ) : Type 0 where
  pub fits : width ≤ 64
  pub small : value < 2 ^ width
  pub ret : s.retval ≡ value
  pub max : s.maxval ≡ 2 ^ width - 1
  pub mag : s.magnitude ≡ width

pow64 : (width : ℕ) → width ≤ 64 → 2 ^ width ≤ 2 ^ 64
pow64 width h =
    let e : width + (64 - width) ≡ 64 = omega arith in
    omega (arith, pow-le width (64 - width), ap (λ n. 2 ^ n) e)

Holds-eq :
    {s : Scan} {width width' value value' : ℕ}
    → Holds s width value
    → width ≡ width'
    → value ≡ value'
    → Holds s width' value'
Holds-eq {s} h e e' = subst₂ (Holds s) e e' h

nothing_left : (v p n : ℕ) → v ≡ v + p * (n % 2 ^ 0)
nothing_left v p n = omega (arith, ap (λ (t : ℕ). p * t) (mod-one n))

room : (c v p q : ℕ) → v < p → c < q → v + p * c < p * q
room c v p q hv hc = grind arith

ones : (p q : ℕ) → 0 < p → 0 < q → (p - 1) * q + (q - 1) ≡ p * q - 1
ones zero q hp hq = absurd (omega arith)
ones (suc p) q hp hq = let e : suc p - 1 ≡ p = omega arith in rw e (omega arith)

scan_byte-Holds :
    (byte start bits : ℕ) {s : Scan} {width value : ℕ}
    → byte < 256
    → start < 8
    → start + bits ≤ 8
    → width + bits ≤ 64
    → Holds s width value
    → Holds
        (scan_byte byte start bits s)
        (width + bits)
        (value + 2 ^ width * (byte / 2 ^ start % 2 ^ bits))
unfolding scan_byte
scan_byte-Holds byte start bits {s} {width} {value} hb hs hw fit h = record {
  fits = fit;
  small = below;
  ret = rw (h.ret, h.mag, cut.0) (omega (arith, below, pow64 (width + bits) fit));
  max =
      rw (h.max, cut.1)
        (omega (
          arith,
          ones (2 ^ width) (2 ^ bits) (pow-pos width) (pow-pos bits),
          pow-add width bits,
          pow-pos bits,
          pow64 (width + bits) fit,
        ));
  mag = ap (λ n. n + bits) h.mag;
}
  where
    cut :
        (masked byte start bits ≡ byte / 2 ^ start % 2 ^ bits)
        × (mask start bits / 2 ^ start ≡ 2 ^ bits - 1)
    cut = masked_lem byte start bits hb hs hw

    below : value + 2 ^ width * (byte / 2 ^ start % 2 ^ bits) < 2 ^ (width + bits)
    below = rw (pow-add width bits) (
        room (byte / 2 ^ start % 2 ^ bits) value (2 ^ width) (2 ^ bits) h.small
          (mod-lt _ (pow-pos bits)))

head-lt : (bytes : List ℕ) → AllBytes bytes → head_byte bytes < 256
head-lt [] h = omega arith
head-lt (b ∷ bs) h = h.0

tail-AllBytes : (bytes : List ℕ) → AllBytes bytes → AllBytes (drop 1 bytes)
tail-AllBytes [] h = tt
tail-AllBytes (b ∷ bs) h = h.1

value_split :
    (bytes : List ℕ) → bytes_value bytes ≡ head_byte bytes + 256 * bytes_value (drop 1 bytes)
unfolding bytes_value
value_split [] = refl
value_split (b ∷ bs) = refl

-- The loop puts the slice of `bits_left` bits from `start` on above what it has read.
scan-Holds :
    (fuel bits_left start : ℕ) (bytes : List ℕ) {s : Scan} {width value : ℕ}
    → bits_left ≤ fuel
    → start < 8
    → AllBytes bytes
    → width + bits_left ≤ 64
    → Holds s width value
    → Holds
        (scan fuel bits_left start bytes s)
        (width + bits_left)
        (value + 2 ^ width * (bytes_value bytes / 2 ^ start % 2 ^ bits_left))
unfolding scan
scan-Holds zero zero start bytes {s} {width} {value} hf hs hb fit h =
    Holds-eq h (omega arith) (nothing_left value (2 ^ width) (bytes_value bytes / 2 ^ start))
scan-Holds (suc fuel) zero start bytes {s} {width} {value} hf hs hb fit h =
    Holds-eq h (omega arith) (nothing_left value (2 ^ width) (bytes_value bytes / 2 ^ start))
scan-Holds zero (suc bits_left) start bytes hf hs hb fit h = absurd (omega arith)
scan-Holds (suc fuel) (suc bits_left) start bytes {s} {width} {value} hf hs hb fit h = rw goes_on (
    Holds-eq
      (scan-Holds fuel (suc bits_left - w) 0 (drop 1 bytes) (omega arith) (omega arith)
        (tail-AllBytes bytes hb) (omega arith)
        (scan_byte-Holds (head_byte bytes) start w (head-lt bytes hb) hs (omega arith) (omega arith)
          h))
      (omega arith) joined)
  where
    w : ℕ
    w = byte_bits start (suc bits_left)

    goes_on : (suc bits_left == 0) ≡ false
    goes_on = ground arith

    slice :
        bytes_value bytes / 2 ^ start % 2 ^ suc bits_left
        ≡ head_byte bytes / 2 ^ start % 2 ^ w
          + 2 ^ w * (bytes_value (drop 1 bytes) / 2 ^ 0 % 2 ^ (suc bits_left - w))
    slice =
        ap (λ n. n / 2 ^ start % 2 ^ suc bits_left) (value_split bytes)
        ∙ slice_step (head_byte bytes) (bytes_value (drop 1 bytes)) start (suc bits_left)
            (head-lt bytes hb) hs
        ∙ ap (λ n. head_byte bytes / 2 ^ start % 2 ^ w + 2 ^ w * (n % 2 ^ (suc bits_left - w)))
            (omega arith)

    regroup : (v p q c r : ℕ) → v + p * c + p * q * r ≡ v + p * (c + q * r)
    regroup v p q c r = omega arith

    joined :
        value
          + 2 ^ width * (head_byte bytes / 2 ^ start % 2 ^ w)
          + 2 ^ (width + w) * (bytes_value (drop 1 bytes) / 2 ^ 0 % 2 ^ (suc bits_left - w))
        ≡ value + 2 ^ width * (bytes_value bytes / 2 ^ start % 2 ^ suc bits_left)
    joined = rw (pow-add width w, slice) (regroup value (2 ^ width) (2 ^ w) _ _)

abbrev pub scanned : Field → List ℕ → ℕ → Scan
scanned f bytes start =
    scan f.size f.size (start % 8) (drop (start / 8) bytes)
      (record { retval = 0; maxval = 0; magnitude = 0 })

pub scanned-Holds :
    (f : Field) (bytes : List ℕ) (start : ℕ)
    → f.size ≤ 64
    → AllBytes bytes
    → Holds (scanned f bytes start) f.size (slice bytes start f.size)
scanned-Holds f bytes start n b =
    Holds-eq
      (scan-Holds f.size f.size (start % 8) (drop (start / 8) bytes) {width = 0} {value = 0}
        (omega arith) (omega arith) (drop-AllBytes (start / 8) bytes b) (omega arith) empty)
      (omega arith) (rw (value-start bytes start b) (omega arith))
  where
    empty : Holds (record { retval = 0; maxval = 0; magnitude = 0 }) 0 0
    empty = record { fits = omega arith; small = omega arith; ret = refl; max = refl; mag = refl }

-- An unsigned field of up to 64 bits is read as the number in its bits, with the largest number of
-- its width.
pub unsigned_field :
    (f : Field) (bytes : List ℕ) (start : ℕ)
    → f.has_sign ≡ false
    → f.size ≤ 64
    → AllBytes bytes
    → extract_number_field f bytes start ≡ (slice bytes start f.size, 2 ^ f.size - 1)
unfolding extract_number_field sign_extend
unsigned_field f bytes start u n b =
    let h = scanned-Holds f bytes start n b in rw u (ground (arith, h))
