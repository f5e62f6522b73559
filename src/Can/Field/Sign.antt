-- ===== src/Can/Field/Sign.antt =====
-- `ExtractNumberField` of can/can.cc reads a signed field in two's complement.
use Prim.Native.Nat.{bit_or}
use native.Mathlib.Nat.{pow-suc, le-div_iff_mul-le, div-eq_of_lt}
use native.Mathlib.Decide.{dec_lt}
use boat.Prelude.{
  subst, lt→ltb, le→ltb, mod_cases, ℕ, suc, ◌+◌, ◌-◌, ◌/◌, ◌%◌, ◌^◌, ◌≤◌, ◌<◌, ◌≡◌, refl, ap, sym,
  ◌∙◌, true, false, List, ltb, ◌==◌, if◌then◌else◌, arith,
}
use boat.Prelude.Bits.{pow-le, pow-pos, bit_or-high}
use boat.Prelude.Int.{ℤ, pos, negsuc}
use boat.Can.Field.{sar64, not64, Field, Scan, sign_extend, extract_number_field, signed64}
use boat.Prelude.Bytes.{AllBytes, slice}
use boat.Can.Field.Extract.{Holds, scanned, scanned-Holds}

-- A number in two's complement of `suc k` bits.
unfoldable pub twos_complement : ℕ → ℕ → ℤ
twos_complement k raw = if ltb raw (2 ^ k) then pos raw else negsuc (2 ^ suc k - raw - 1)

pow63 : (k : ℕ) → k < 63 → 2 ^ suc k ≤ 2 ^ 63
pow63 k h =
    let e : suc k + (62 - k) ≡ 63 = omega arith in
    omega (arith, pow-le (suc k) (62 - k), ap (λ n. 2 ^ n) e)

sar64_small : (x k : ℕ) → x < 2 ^ 63 → sar64 x k ≡ x / 2 ^ k
sar64_small x k h = rw (lt→ltb _ _ h)

half_max : (k : ℕ) → k < 63 → sar64 (2 ^ suc k - 1) 1 ≡ 2 ^ k - 1
half_max k h =
    sar64_small (2 ^ suc k - 1) 1 (omega (arith, pow63 k h, pow-pos (suc k)))
    ∙ omega (arith, pow-suc 2 k, pow-pos k)

-- Setting all bits from the sign bit on.
fill_sign :
    (k raw : ℕ)
    → k < 63
    → 2 ^ k ≤ raw
    → raw < 2 ^ suc k
    → bit_or raw (not64 (2 ^ k - 1)) ≡ 2 ^ 64 + raw - 2 ^ suc k
fill_sign k raw hk lo hi =
    let e : k + (64 - k) ≡ 64 = omega arith in
    let word : 2 ^ (k + (64 - k)) ≡ 2 ^ 64 = ap (λ n. 2 ^ n) e in
    let m : raw % 2 ^ k ≡ raw - 2 ^ k =
      omega (arith, mod_cases raw (2 ^ k) (omega (arith, pow-suc 2 k))) in
    let low : 2 ^ (k + (64 - k)) - 2 ^ k ≡ not64 (2 ^ k - 1) =
      omega (arith, word, pow-pos k, pow63 k hk) in
    sym (ap (bit_or raw) low)
    ∙ bit_or-high k (64 - k) raw (omega (arith, word, pow63 k hk))
    ∙ omega (arith, m, word, pow-suc 2 k, pow63 k hk)

sign_extend_lem :
    (k raw : ℕ) {s : Scan}
    → k < 63
    → Holds s (suc k) raw
    → (signed64 (sign_extend true s).0 ≡ twos_complement k raw)
      × ((sign_extend true s).1 ≡ 2 ^ k - 1)
unfolding sign_extend twos_complement
sign_extend_lem k raw {s} hk h = elim (dec_lt raw (2 ^ k)) [
  | yes p ↦
      rw
        (
          h.ret,
          h.max,
          h.mag,
          half_max k hk,
          same,
          sar64_small raw k small,
          div-eq_of_lt p,
          lt→ltb _ _ p,
          lt→ltb _ _ small,
        )
        (refl, refl)
  | no p ↦
      rw
        (
          h.ret,
          h.max,
          h.mag,
          half_max k hk,
          same,
          sar64_small raw k small,
          negative (omega arith),
          le→ltb raw (2 ^ k) (omega arith),
          fill_sign k raw hk (omega arith) h.small,
          le→ltb (2 ^ 64 + raw - 2 ^ suc k) (2 ^ 63) (omega (arith, pow63 k hk, h)),
        )
        (ap negsuc (omega (arith, h.small, pow63 k hk)), refl)
]
  where
    same : suc k - 1 ≡ k
    same = omega arith

    small : raw < 2 ^ 63
    small = omega (arith, h, pow63 k hk)

    negative : 2 ^ k ≤ raw → (raw / 2 ^ k == 0) ≡ false
    negative lo =
        let one : 1 ≤ raw / 2 ^ k = (le-div_iff_mul-le (pow-pos k)).1 (omega arith) in ground arith

-- A signed field of fewer than 64 bits is read in two's complement, with the largest number that
-- its width can hold in two's complement.
pub signed_field :
    (f : Field) (bytes : List ℕ) (start k : ℕ)
    → f.has_sign ≡ true
    → f.size ≡ suc k
    → k < 63
    → AllBytes bytes
    → let (retval, maxval) = extract_number_field f bytes start in
      (signed64 retval ≡ twos_complement k (slice bytes start (suc k))) × (maxval ≡ 2 ^ k - 1)
unfolding extract_number_field
signed_field f bytes start k g n hk b = rw g (
    sign_extend_lem k (slice bytes start (suc k)) hk (
      subst (λ w. Holds (scanned f bytes start) w (slice bytes start w)) n
        (scanned-Holds f bytes start (omega arith) b)))
