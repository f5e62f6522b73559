-- ===== src/Can/Field/Reserved.antt =====
-- Which values `IsReserved` of can/can.cc takes for "not available".
use native.Mathlib.Decide.{dec_lt}
use native.Mathlib.Nat.{mod-lt}
use boat.Prelude.{
  subst, ap₂, ℕ, suc, ◌+◌, ◌-◌, ◌^◌, ◌≤◌, ◌<◌, ◌≡◌, refl, ap, ◌∙◌, true, false, ◌&&◌, List, ltb,
  leb, ◌==◌, arith, lt→ltb, le→ltb,
}
use boat.Prelude.Bits.{pow-le, pow-pos, bit_or-high}
use boat.Prelude.Int.{pos, negsuc, ◌-ℤ◌}
use boat.Can.Field.{Field, Scan, sign_extend, extract_number_field, signed64, is_reserved}
use boat.Prelude.Bytes.{AllBytes, slice}
use boat.Can.Field.Extract.{Holds, scanned, scanned-Holds, unsigned_field}
use boat.Can.Field.Sign.{signed_field, twos_complement}

-- At a largest value of 15 or more, the three highest values are reserved.
is_reserved_pos : (max v : ℕ) → 15 ≤ max → v ≤ max → is_reserved (pos v) (pos max) ≡ leb (max - 2) v
unfolding is_reserved ◌-ℤ◌
is_reserved_pos max v h l = ground arith

is_reserved_neg : (max v : ℕ) → 15 ≤ max → is_reserved (negsuc v) (pos max) ≡ false
unfolding is_reserved ◌-ℤ◌
is_reserved_neg max v h = ground arith

pub signed64_small : (x : ℕ) → x < 2 ^ 63 → signed64 x ≡ pos x
signed64_small x h = rw (lt→ltb _ _ h)

pub pow_range : (k : ℕ) → 4 ≤ k → k ≤ 63 → (16 ≤ 2 ^ k) × (2 ^ k ≤ 2 ^ 63)
pow_range k lo hi =
    let low : 4 + (k - 4) ≡ k = omega arith in
    let high : k + (63 - k) ≡ 63 = omega arith in
    (
      omega (arith, pow-le 4 (k - 4), ap (λ n. 2 ^ n) low),
      omega (arith, pow-le k (63 - k), ap (λ n. 2 ^ n) high),
    )

reserved-twos_complement :
    (k raw : ℕ)
    → 16 ≤ 2 ^ k
    → is_reserved (twos_complement k raw) (pos (2 ^ k - 1))
      ≡ (leb (2 ^ k - 3) raw && ltb raw (2 ^ k))
unfolding twos_complement
reserved-twos_complement k raw h = elim (dec_lt raw (2 ^ k)) [
  | yes p ↦
      rw (lt→ltb _ _ p, is_reserved_pos (2 ^ k - 1) raw (omega arith) (omega arith)) (ground arith)
  | no p ↦
      rw
        (
          le→ltb raw (2 ^ k) (omega arith),
          is_reserved_neg (2 ^ k - 1) (2 ^ suc k - raw - 1) (omega arith),
        )
        (ground arith)
]

-- A signed field of 5 to 63 bits counts as not filled in exactly when its bits are one of the three
-- highest positive numbers of its width.
reserved_signed :
    (f : Field) (bytes : List ℕ) (start k : ℕ)
    → f.has_sign ≡ true
    → f.size ≡ suc k
    → 4 ≤ k
    → k < 63
    → AllBytes bytes
    → let (retval, maxval) = extract_number_field f bytes start in
      is_reserved (signed64 retval) (signed64 maxval)
      ≡ (leb (2 ^ k - 3) (slice bytes start (suc k)) && ltb (slice bytes start (suc k)) (2 ^ k))
reserved_signed f bytes start k g n lo hi b =
    let (val, max) = signed_field f bytes start k g n hi b in
    let (large, small) = pow_range k lo (omega arith) in
    ap₂ is_reserved val (ap signed64 max ∙ signed64_small (2 ^ k - 1) (omega (arith, small)))
    ∙ reserved-twos_complement k (slice bytes start (suc k)) large

-- An unsigned field of 4 to 63 bits counts as not filled in exactly when its bits are one of the
-- three highest numbers of its width.
pub reserved_unsigned :
    (f : Field) (bytes : List ℕ) (start : ℕ)
    → f.has_sign ≡ false
    → 4 ≤ f.size
    → f.size ≤ 63
    → AllBytes bytes
    → let (retval, maxval) = extract_number_field f bytes start in
      is_reserved (signed64 retval) (signed64 maxval)
      ≡ leb (2 ^ f.size - 3) (slice bytes start f.size)
reserved_unsigned f bytes start g lo hi b =
    let (large, small) = pow_range f.size lo hi in
    let below : slice bytes start f.size < 2 ^ f.size = mod-lt _ (pow-pos f.size) in
    ap (λ t. is_reserved (signed64 t.0) (signed64 t.1))
      (unsigned_field f bytes start g (omega arith) b)
    ∙ ap₂ is_reserved (signed64_small (slice bytes start f.size) (omega (arith, small, below)))
        (signed64_small (2 ^ f.size - 1) (omega (arith, small, large)))
    ∙ is_reserved_pos (2 ^ f.size - 1) (slice bytes start f.size) (omega (arith, large))
        (omega (arith, below))
    ∙ ap (λ n. leb n (slice bytes start f.size)) (omega arith)

full_width :
    (raw : ℕ) {s : Scan}
    → Holds s 64 raw
    → ((sign_extend true s).0 ≡ raw) × ((sign_extend true s).1 ≡ 2 ^ 64 - 1)
unfolding sign_extend
full_width raw {s} h =
    rw (h.ret, h.max, h.mag) (ground (arith, bit_or-high 64 0 raw h.small, h.small), refl)

reserved_minus_one :
    (raw : ℕ) → raw < 2 ^ 64 → is_reserved (signed64 raw) (negsuc 0) ≡ (raw == 2 ^ 64 - 1)
unfolding is_reserved ◌-ℤ◌
reserved_minus_one raw h = ground arith

-- A signed field of 64 bits is read right, but its largest value is taken to be -1: it counts as
-- not filled in exactly when it is -1, so the number that stands for "not available" is passed on.
reserved_full_width :
    (f : Field) (bytes : List ℕ) (start : ℕ)
    → f.has_sign ≡ true
    → f.size ≡ 64
    → AllBytes bytes
    → let (retval, maxval) = extract_number_field f bytes start in
      (retval ≡ slice bytes start 64)
      × (signed64 maxval ≡ negsuc 0)
      × (is_reserved (signed64 retval) (signed64 maxval) ≡ (slice bytes start 64 == 2 ^ 64 - 1))
unfolding extract_number_field
reserved_full_width f bytes start g n b =
    let (val, max) = full_width raw held in
    rw g (
      val,
      ap signed64 max,
      ap₂ is_reserved (ap signed64 val) (ap signed64 max) ∙ reserved_minus_one raw held.small,
    )
  where
    raw : ℕ
    raw = slice bytes start 64

    held : Holds (scanned f bytes start) 64 raw
    held =
        subst (λ w. Holds (scanned f bytes start) w (slice bytes start w)) n
          (scanned-Holds f bytes start (omega arith) b)
