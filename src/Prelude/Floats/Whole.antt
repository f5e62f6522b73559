-- ===== src/Prelude/Floats/Whole.antt =====
-- Whole numbers in place of floating point ones, for concrete inputs.
use Prim.Native.Nat.{◌+◌, ◌/◌}
use boat.Prelude.Int.{ℤ, pos, pos_part, neg_part, ◌+ℤ◌, ◌-ℤ◌, ◌*ℤ◌, ltb_ℤ, leb_ℤ, -ℤ_parts}
use mathlib.Core.Path.{◌≡◌}
use mathlib.Core.Bool.{true}
use boat.Prelude.Floats.{Floats, IsOrdered}
use native.Mathlib.Omega.{arith}

abbrev pub ints : Floats
ints = record {
  F = ℤ;
  add = ◌+ℤ◌;
  sub = ◌-ℤ◌;
  mul = ◌*ℤ◌;
  div = λ a b. a;
  neg = λ a. pos 0 -ℤ a;
  lt = ltb_ℤ;
  le = leb_ℤ;
  narrow = λ a. a;
  trunc = λ a. a;
  of_int = λ a. a;
  literal = λ p q. pos (p / q);
  pi = pos 3;
  abs = λ a. pos (pos_part a + neg_part a);
  sqrt = λ a. a;
  sin = λ a. a;
  cos = λ a. a;
  atan = λ a. a;
  atan2 = λ y x. pos 0;
  exp = λ a. a;
  pow = λ a b. a;
}

neg_lt_whole : (a : ℤ) → ltb_ℤ (pos 0) a ≡ true → ltb_ℤ (pos 0 -ℤ a) (pos 0) ≡ true
neg_lt_whole a h = ground (arith, -ℤ_parts (pos 0) a)

pub ints-IsOrdered : IsOrdered ints
ints-IsOrdered = record {
  lt_irrefl = λ a. ground arith;
  lt_trans = λ a b c h k. ground arith;
  literal_lt = λ a b h k. ground arith;
  neg_lt = neg_lt_whole;
}
