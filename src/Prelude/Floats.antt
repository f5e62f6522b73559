-- ===== src/Prelude/Floats.antt =====
-- The floating point arithmetic that the compiler and the C library supply. Both precisions have
-- one type: `narrow` is the conversion of a double to a float.
pub mod Whole
use Prim.Native.Nat.{ℕ, ◌<◌, ◌≤◌, ◌^◌}
use mathlib.Core.Path.{◌≡◌}
use mathlib.Core.Bool.{Bool, true, false}
use native.Mathlib.Omega.{arith}
use boat.Prelude.Tests.{if◌then◌else◌}
use boat.Prelude.Int.{ℤ}

pub record Floats : Type 1 where
  pub F : Type 0
  pub add : F → F → F
  pub sub : F → F → F
  pub mul : F → F → F
  pub div : F → F → F
  pub neg : F → F
  pub lt : F → F → Bool
  pub le : F → F → Bool
  pub narrow : F → F
  -- The conversions to `int` and back.
  pub trunc : F → ℤ
  pub of_int : ℤ → F
  -- The literal whose value is the quotient, and `M_PI`.
  pub literal : ℕ → ℕ → F
  pub pi : F
  pub abs : F → F
  pub sqrt : F → F
  pub sin : F → F
  pub cos : F → F
  pub atan : F → F
  pub atan2 : F → F → F
  pub exp : F → F
  pub pow : F → F → F

-- `std::min`, `std::max`, and `Clip` of control/util.h.
module _ (fl : Floats) where
  open fl use {F, lt}

  unfoldable pub fmin : F → F → F
  fmin a b = if lt b a then b else a

  pub fmax : F → F → F
  fmax a b = if lt a b then b else a

  pub clip : F → F → F → F
  clip a lo hi = fmax (fmin a hi) lo

-- What comparisons promise, also where they meet something that is not a number, and on whole numbers
-- that both precisions hold exactly.
pub record IsOrdered (fl : Floats) : Type 0 where
  pub lt_irrefl : (a : fl.F) → fl.lt a a ≡ false
  pub lt_trans : (a b c : fl.F) → fl.lt a b ≡ true → fl.lt b c ≡ true → fl.lt a c ≡ true
  pub literal_lt : (a b : ℕ) → a < b → b ≤ 2 ^ 24 → fl.lt (fl.literal a 1) (fl.literal b 1) ≡ true
  pub neg_lt :
      (a : fl.F) → fl.lt (fl.literal 0 1) a ≡ true → fl.lt (fl.neg a) (fl.literal 0 1) ≡ true

module _ (fl : Floats) (o : IsOrdered fl) where
  open fl use {F, lt}

  -- `fmin` and `fmax` do not pass the bound that they are given.
  pub fmin-bounded : (a b : F) → lt b (fmin fl a b) ≡ false
  unfolding fmin
  fmin-bounded a b = ground (arith, o.lt_irrefl b)

  pub fmax-bounded : (a b : F) → lt (fmax fl a b) b ≡ false
  unfolding fmax
  fmax-bounded a b = ground (arith, o.lt_irrefl b)

  -- A bound further out keeps what a bound has reached.
  pub fmin-keeps : (lo a b : F) → lt lo b ≡ true → lt a lo ≡ false → lt (fmin fl a b) lo ≡ false
  unfolding fmin
  fmin-keeps lo a b h k = ground (arith, o.lt_trans lo b lo, o.lt_irrefl lo)

  pub fmax-keeps : (hi a b : F) → lt b hi ≡ true → lt hi a ≡ false → lt hi (fmax fl a b) ≡ false
  unfolding fmax
  fmax-keeps hi a b h k = ground (arith, o.lt_trans hi b hi, o.lt_irrefl hi)

  -- A bound further out that is not reached stays out of the way.
  pub fmin-below : (lo a b : F) → lt lo b ≡ true → lt lo a ≡ false → lt lo (fmin fl a b) ≡ false
  unfolding fmin
  fmin-below lo a b h k = ground (arith, o.lt_trans lo b a)

  pub fmax-above : (hi a b : F) → lt b hi ≡ true → lt a hi ≡ false → lt (fmax fl a b) hi ≡ false
  unfolding fmax
  fmax-above hi a b h k = ground (arith, o.lt_trans a b hi)

  -- A value that is clipped stays in its range.
  pub clip-bounded :
      (a lo hi : F)
      → lt hi lo ≡ false
      → (lt hi (clip fl a lo hi) ≡ false) × (lt (clip fl a lo hi) lo ≡ false)
  unfolding clip
  clip-bounded a lo hi h =
      (unfold fmax in (ground (arith, fmin-bounded a hi)), fmax-bounded (fmin fl a hi) lo)
