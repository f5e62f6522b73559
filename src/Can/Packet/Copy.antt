-- ===== src/Can/Packet/Copy.antt =====
-- Copying into the buffer of a message, and the first byte of a fast packet frame (can/can.cc).
use Prim.Native.Nat.{bit_and}
use native.Mathlib.Decide.{dec_lt}
use boat.Prelude.{
  ℕ, zero, suc, ◌+◌, ◌-◌, ◌%◌, ◌≤◌, ◌<◌, ◌≡◌, refl, ap, ◌∙◌, Bool, true, ◌&&◌, none, some, List, [],
  ◌∷◌, ◌==◌, lt→ltb, le→ltb, length, get_or, set, arith, length-set, get_or-set_self, get_or-set_ne,
}
use boat.Prelude.Bits.{every, every_lem}
use boat.Can.Packet.{copy_bytes}

-- What a copy that stays inside both arrays leaves.
pub record Copied (target source : List ℕ) (start count : ℕ) (r : List ℕ) : Type 0 where
  pub same_length : length r ≡ length target
  pub inside : (i : ℕ) → i < count → get_or r (start + i) 0 ≡ get_or source i 0
  pub outside : (i : ℕ) → i < start → get_or r i 0 ≡ get_or target i 0

Copied-cons :
    (target source : List ℕ) (start count b : ℕ) (r : List ℕ)
    → start < length target
    → Copied (set target start b) source (start + 1) count r
    → (i : ℕ) → i < suc count
    → get_or r (start + i) 0 ≡ get_or (b ∷ source) i 0
Copied-cons target source start count b r s c zero h =
    ap (λ k. get_or r k 0) (omega arith)
    ∙ c.outside start (omega arith)
    ∙ get_or-set_self target start b 0 s
Copied-cons target source start count b r s c (suc i) h =
    ap (λ k. get_or r k 0) (omega arith) ∙ c.inside i (omega arith)

pub copy_bytes_lem :
    (count : ℕ) (target : List ℕ) (start : ℕ) (source : List ℕ)
    → count ≤ length source
    → start + count ≤ length target
    → (r : List ℕ) × (copy_bytes count target start source ≡ some r)
      × Copied target source start count r
unfolding copy_bytes
copy_bytes_lem zero target start source s t = (
  target,
  refl,
  record { same_length = refl; inside = λ i h. absurd (omega arith); outside = λ i h. refl },
)
copy_bytes_lem (suc count) target start [] s t = absurd (omega arith)
copy_bytes_lem (suc count) target start (b ∷ source) s t =
    let (r, e, c) =
      copy_bytes_lem count (set target start b) (start + 1) source (omega arith)
        (rw (length-set target start b) (omega arith)) in
    (
      r,
      rw (lt→ltb start (length target) (omega arith)) e,
      record {
        same_length = c.same_length ∙ length-set target start b;
        inside = Copied-cons target source start count b r (omega arith) c;
        outside = λ i h. c.outside i (omega arith) ∙ get_or-set_ne target b 0 (omega arith);
      },
    )

-- A frame with too high an index, of a message that is too short for it, writes behind the buffer.
pub copy_bytes_past :
    (count : ℕ) (target : List ℕ) (start : ℕ) (source : List ℕ)
    → length target < start + count
    → 0 < count
    → copy_bytes count target start source ≡ none
unfolding copy_bytes
copy_bytes_past zero target start source t c = absurd (omega arith)
copy_bytes_past (suc count) target start [] t c = refl
copy_bytes_past (suc count) target start (b ∷ source) t c = elim (dec_lt start (length target)) [
  | yes p ↦ rw (lt→ltb start (length target) p) (
      copy_bytes_past count (set target start b) (start + 1) source
        (rw (length-set target start b) (omega arith)) (omega arith))
  | no p ↦ rw (le→ltb start (length target) (omega arith))
]

-- The two parts of the first byte of a fast packet frame.
header_ok : ℕ → Bool
header_ok b = bit_and b 0x1f == b % 32 && bit_and b 0xe0 == b - b % 32

header_table : every header_ok 256 ≡ true
unfolding every header_ok
header_table = refl

pub header_lem : (b : ℕ) → b < 256 → (bit_and b 0x1f ≡ b % 32) × (bit_and b 0xe0 ≡ b - b % 32)
unfolding header_ok
header_lem b h = ground (arith, every_lem header_ok 256 header_table b h)
