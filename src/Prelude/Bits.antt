-- ===== src/Prelude/Bits.antt =====
-- Powers of two, slices of bits, and the bit operations where the code uses them with variables.
use Prim.Native.Nat.{
  ℕ, zero, suc, ◌+◌, ◌-◌, ◌*◌, ◌/◌, ◌%◌, ◌^◌, ◌≤◌, ◌<◌, max, bit_or, digits, bit_or-bitwise,
}
use native.Mathlib.Nat.{pow-suc, suc-add, div-add-mod, mod-lt, mul-add-mod_self_left, mod-eq_of_lt}
use mathlib.Core.Path.{◌≡◌, refl, ap, ap₂, ◌∙◌}
use mathlib.Core.Bool.{Bool, true, false}
use mathlib.Core.Logic.{inl, inr}
use native.Mathlib.Decide.{dec_lt}
use boat.Prelude.Tests.{if◌then◌else◌, Bool-cases}
use native.Mathlib.Omega.{arith}

pub pow-add : (a b : ℕ) → 2 ^ (a + b) ≡ 2 ^ a * 2 ^ b
pow-add zero b = let e : 0 + b ≡ b = omega arith in rw e (omega arith)
pow-add (suc a) b = rw (suc-add, pow-suc, pow-suc, pow-add a b) (omega arith)

pub pow-pos : (a : ℕ) → 0 < 2 ^ a
pow-pos zero = omega arith
pow-pos (suc a) = rw pow-suc (omega (arith, pow-pos a))

-- The low digits of a number in mixed radix.
pub mod-mul : (x y p q : ℕ) → x < p → 0 < q → (x + p * y) % (p * q) ≡ x + p * (y % q)
mod-mul x y p q hx hq =
    ap (λ t. t % (p * q)) split
    ∙ mul-add-mod_self_left (p * q) (y / q) (x + p * (y % q))
    ∙ mod-eq_of_lt (omega (arith, room (y % q) (mod-lt y hq)))
  where
    split : x + p * y ≡ p * q * (y / q) + (x + p * (y % q))
    split = omega (arith, ap (λ (t : ℕ). p * t) (div-add-mod y q))

    room : (r : ℕ) → r < q → p * r + p ≤ p * q
    room r h = grind arith

-- A test on every number of a small range, by evaluation.
unfoldable pub every : (ℕ → Bool) → ℕ → Bool
every test zero = true
every test (suc n) = if test n then every test n else false

pub every_lem : (test : ℕ → Bool) (n : ℕ) → every test n ≡ true → (x : ℕ) → x < n → test x ≡ true
unfolding every
every_lem test zero e x b = absurd (omega arith)
every_lem test (suc n) e x b = elim (Bool-cases (test n)) [
  | inr fails ↦ absurd (ground arith)
  | inl holds ↦ elim (dec_lt x n) [
    | yes below ↦ every_lem test n (ground arith) x below
    | no last ↦ ap test (omega arith) ∙ holds
  ]
]

-- The law of `|` for the lowest digit, from the definition that the native operation stands for.
abbrev or_digits : ℕ → ℕ → ℕ → ℕ
or_digits n a b = digits (λ c. c) max n a b

or_digits_enough : (n m a b : ℕ) → a ≤ n → a ≤ m → or_digits n a b ≡ or_digits m a b
or_digits_enough zero zero a b p q = refl
or_digits_enough zero (suc m) zero b p q = refl
or_digits_enough zero (suc m) (suc a) b p q = absurd (omega arith)
or_digits_enough (suc n) zero zero b p q = refl
or_digits_enough (suc n) zero (suc a) b p q = absurd (omega arith)
or_digits_enough (suc n) (suc m) zero b p q = refl
or_digits_enough (suc n) (suc m) (suc a) b p q =
    omega (arith, or_digits_enough n m (suc a / 2) (b / 2) (omega arith) (omega arith))

bit_or-halves : (a b : ℕ) → bit_or a b ≡ bit_or (a / 2) (b / 2) * 2 + max (a % 2) (b % 2)
bit_or-halves zero b = omega (arith, bit_or-bitwise 0 b, bit_or-bitwise 0 (b / 2))
bit_or-halves (suc a) b = omega (
  arith,
  bit_or-bitwise (suc a) b,
  bit_or-bitwise (suc a / 2) (b / 2),
  or_digits_enough a (suc a / 2) (suc a / 2) (b / 2) (omega arith) (omega arith),
)

bit_or-ones : (n a : ℕ) → a < 2 ^ n → bit_or a (2 ^ n - 1) ≡ 2 ^ n - 1
bit_or-ones zero zero h = refl
bit_or-ones zero (suc a) h = absurd (omega arith)
bit_or-ones (suc n) a h = omega (
  arith,
  pow-suc 2 n,
  pow-pos n,
  half,
  bit_or-halves a (2 ^ suc n - 1),
  bit_or-ones n (a / 2) (omega (arith, pow-suc 2 n)),
)
  where
    half : bit_or (a / 2) ((2 ^ suc n - 1) / 2) ≡ bit_or (a / 2) (2 ^ n - 1)
    half = ap (bit_or (a / 2)) (omega (arith, pow-suc 2 n, pow-pos n))

pub pow-le : (k n : ℕ) → 2 ^ k ≤ 2 ^ (k + n)
pow-le k n = omega (arith, pow-add k n, multiple (2 ^ n) (2 ^ k) (pow-pos n))
  where
    multiple : (c b : ℕ) → 0 < c → b ≤ b * c
    multiple zero b h = absurd (omega arith)
    multiple (suc c) b h = omega arith

lowest-bit : (k a : ℕ) → a % 2 ^ suc k ≡ a % 2 + 2 * (a / 2 % 2 ^ k)
lowest-bit k a =
    ap₂ ◌%◌ (omega arith) (omega (arith, pow-suc 2 k))
    ∙ mod-mul (a % 2) (a / 2) 2 (2 ^ k) (omega arith) (pow-pos k)

-- `a | ~(2 ^ k - 1)` on words of `k + n` bits: the upper `n` bits are set.
pub bit_or-high :
    (k n a : ℕ)
    → a < 2 ^ (k + n)
    → bit_or a (2 ^ (k + n) - 2 ^ k) ≡ a % 2 ^ k + (2 ^ (k + n) - 2 ^ k)
bit_or-high zero n a h =
    let e : 0 + n ≡ n = omega arith in
    omega (
      arith,
      ap (λ m. bit_or a (2 ^ m - 1)) e,
      ap (λ m. 2 ^ m) e,
      bit_or-ones n a (omega (arith, ap (λ m. 2 ^ m) e)),
    )
bit_or-high (suc k) n a h =
    let w : 2 ^ (suc k + n) ≡ 2 ^ (k + n) * 2 = ap (λ m. 2 ^ m) (suc-add k n) ∙ pow-suc 2 (k + n) in
    let halves : (2 ^ (suc k + n) - 2 ^ suc k) / 2 ≡ 2 ^ (k + n) - 2 ^ k =
      omega (arith, w, pow-suc 2 k, pow-le k n) in
    omega (
      arith,
      w,
      pow-suc 2 k,
      pow-le k n,
      bit_or-halves a (2 ^ (suc k + n) - 2 ^ suc k),
      ap (bit_or (a / 2)) halves,
      bit_or-high k n (a / 2) (omega (arith, w)),
      lowest-bit k a,
    )
