-- ===== src/Can/Field/Slice.antt =====
-- The bits that the masks of can/can.cc cut out of a byte, and what is left of a slice behind them.
use native.Mathlib.Decide.{dec_le}
use native.Mathlib.Nat.{
  min-eq_left, min-eq_right, div-lt_iff_lt-mul, add-mul-mod_self_left, mod-eq_of_lt,
}
use boat.Prelude.{
  ℕ, zero, suc, ◌+◌, ◌-◌, ◌*◌, ◌/◌, ◌%◌, ◌^◌, ◌≤◌, ◌<◌, ◌≡◌, refl, ap, sym, ◌∙◌, Bool, true, ◌&&◌,
  leb, le→leb, ◌==◌, ==_iff, if◌then◌else◌, arith,
}
use boat.Prelude.Bits.{every, every_lem, mod-mul, pow-add, pow-pos}
use boat.Can.Field.{mask, masked, byte_bits}

-- For every byte, start and width the mask cuts out the bits that it should.
masked_ok : ℕ → ℕ → ℕ → Bool
masked_ok byte start bits =
    if leb (start + bits) 8
    then masked byte start bits == byte / 2 ^ start % 2 ^ bits
      && mask start bits / 2 ^ start == 2 ^ bits - 1
    else true

masked_table : every (λ s. every (λ b. every (λ d. masked_ok d s b) 256) 9) 8 ≡ true
unfolding every masked_ok
masked_table = refl

masked_ok-true :
    (byte start bits : ℕ)
    → byte < 256
    → start < 8
    → start + bits ≤ 8
    → masked_ok byte start bits ≡ true
masked_ok-true byte start bits h s b =
    every_lem (λ d. masked_ok d start bits) 256
      (every_lem (λ w. every (λ d. masked_ok d start w) 256) 9
        (every_lem (λ z. every (λ w. every (λ d. masked_ok d z w) 256) 9) 8 masked_table start s)
        bits (omega arith))
      byte h

and-true : (a b : Bool) → (a && b) ≡ true → (a ≡ true) × (b ≡ true)
and-true a b h = ground arith

pub masked_lem :
    (byte start bits : ℕ)
    → byte < 256
    → start < 8
    → start + bits ≤ 8
    → (masked byte start bits ≡ byte / 2 ^ start % 2 ^ bits)
      × (mask start bits / 2 ^ start ≡ 2 ^ bits - 1)
unfolding masked_ok
masked_lem byte start bits h s b =
    let both = rw (le→leb (start + bits) 8 b) at (masked_ok-true byte start bits h s b) in
    let (cut, ones) = and-true _ _ both in ((==_iff _ _).0 cut, (==_iff _ _).0 ones)

-- A shift of at most seven bits takes the upper bits of the lowest byte and what follows them.
shift_in :
    (byte rest start : ℕ)
    → start < 8
    → (byte + 256 * rest) / 2 ^ start ≡ byte / 2 ^ start + 2 ^ (8 - start) * rest
shift_in byte rest zero h = omega arith
shift_in byte rest (suc zero) h = omega arith
shift_in byte rest (suc (suc zero)) h = omega arith
shift_in byte rest (suc (suc (suc zero))) h = omega arith
shift_in byte rest (suc (suc (suc (suc zero)))) h = omega arith
shift_in byte rest (suc (suc (suc (suc (suc zero))))) h = omega arith
shift_in byte rest (suc (suc (suc (suc (suc (suc zero)))))) h = omega arith
shift_in byte rest (suc (suc (suc (suc (suc (suc (suc zero))))))) h = omega arith
shift_in byte rest (suc (suc (suc (suc (suc (suc (suc (suc start)))))))) h = absurd (omega arith)

high-bits-lt : (byte start : ℕ) → byte < 256 → start < 8 → byte / 2 ^ start < 2 ^ (8 - start)
high-bits-lt byte start b h =
    (div-lt_iff_lt-mul (pow-pos start)).1
      (omega (arith, sym (pow-add (8 - start) start) ∙ ap (λ n. 2 ^ n) eight))
  where
    eight : 8 - start + start ≡ 8
    eight = omega arith

-- The bits that one byte adds to a slice, and those that are left.
pub slice_step :
    (byte rest start bits : ℕ)
    → byte < 256
    → start < 8
    → let w = byte_bits start bits in
      (byte + 256 * rest) / 2 ^ start % 2 ^ bits
      ≡ byte / 2 ^ start % 2 ^ w + 2 ^ w * (rest % 2 ^ (bits - w))
slice_step byte rest start bits b h = elim (dec_le bits (8 - start)) [
  | yes p ↦ rw (min-eq_right p, shift_in byte rest start h) (inside p)
  | no p ↦
      rw (min-eq_left {n = 8 - start} {m = bits} (omega arith), shift_in byte rest start h)
        (across (omega arith))
]
  where
    part : bits ≤ 8 - start → 2 ^ (8 - start) ≡ 2 ^ bits * 2 ^ (8 - start - bits)
    part p = ap (λ n. 2 ^ n) (omega arith) ∙ pow-add bits (8 - start - bits)

    whole : 8 - start < bits → 2 ^ bits ≡ 2 ^ (8 - start) * 2 ^ (bits - (8 - start))
    whole p = ap (λ n. 2 ^ n) (omega arith) ∙ pow-add (8 - start) (bits - (8 - start))

    inside :
        bits ≤ 8 - start
        → (byte / 2 ^ start + 2 ^ (8 - start) * rest) % 2 ^ bits
          ≡ byte / 2 ^ start % 2 ^ bits + 2 ^ bits * (rest % 2 ^ (bits - bits))
    inside p =
        ap (λ n. n % 2 ^ bits) (ap (λ n. byte / 2 ^ start + n * rest) (part p) ∙ omega arith)
        ∙ add-mul-mod_self_left (byte / 2 ^ start) (2 ^ bits) (2 ^ (8 - start - bits) * rest)
        ∙ none_left
      where
        none_left :
            byte / 2 ^ start % 2 ^ bits
            ≡ byte / 2 ^ start % 2 ^ bits + 2 ^ bits * (rest % 2 ^ (bits - bits))
        none_left =
            let e : bits - bits ≡ 0 = omega arith in
            let z : rest % 2 ^ (bits - bits) ≡ 0 = ap (λ n. rest % 2 ^ n) e ∙ omega arith in
            omega (arith, ap (λ n. 2 ^ bits * n) z)

    across :
        8 - start < bits
        → (byte / 2 ^ start + 2 ^ (8 - start) * rest) % 2 ^ bits
          ≡ byte / 2 ^ start % 2 ^ (8 - start) + 2 ^ (8 - start) * (rest % 2 ^ (bits - (8 - start)))
    across p =
        ap (λ n. (byte / 2 ^ start + 2 ^ (8 - start) * rest) % n) (whole p)
        ∙ mod-mul (byte / 2 ^ start) rest (2 ^ (8 - start)) (2 ^ (bits - (8 - start)))
            (high-bits-lt byte start b h) (pow-pos (bits - (8 - start)))
        ∙ ap (λ n. n + 2 ^ (8 - start) * (rest % 2 ^ (bits - (8 - start))))
            (sym (mod-eq_of_lt (high-bits-lt byte start b h)))
