-- ===== src/Prelude/Bytes.antt =====
-- Lists of bytes as little-endian numbers.
use native.Mathlib.Nat.{zero-div, div-div-eq-div-mul}
use boat.Prelude.{
  length, refl, ℕ, zero, suc, ◌+◌, ◌*◌, ◌/◌, ◌%◌, ◌^◌, ◌<◌, ◌≡◌, ap, sym, ◌∙◌, List, [], ◌∷◌, arith,
  drop,
}
use boat.Prelude.Bits.{pow-add}

-- The number that little-endian bytes stand for.
unfoldable pub bytes_value : List ℕ → ℕ
bytes_value [] = 0
bytes_value (b ∷ bs) = b + 256 * bytes_value bs

abbrev pub AllBytes : List ℕ → Type 0
AllBytes [] = Unit {0}
AllBytes (b ∷ bs) = (b < 256) × AllBytes bs

pub drop-AllBytes : (k : ℕ) (bytes : List ℕ) → AllBytes bytes → AllBytes (drop k bytes)
drop-AllBytes zero bytes h = h
drop-AllBytes (suc k) [] h = tt
drop-AllBytes (suc k) (b ∷ bs) h = drop-AllBytes k bs h.1

pub value-drop :
    (k : ℕ) (bytes : List ℕ)
    → AllBytes bytes
    → bytes_value (drop k bytes) ≡ bytes_value bytes / 2 ^ (8 * k)
unfolding bytes_value
value-drop zero bytes h = omega (arith, ap (λ n. bytes_value bytes / n) (ap (λ n. 2 ^ n) eight))
  where
    eight : 8 * 0 ≡ 0
    eight = omega arith
value-drop (suc k) [] h = sym (zero-div (2 ^ (8 * suc k)))
value-drop (suc k) (b ∷ bs) h =
    value-drop k bs h.1
    ∙ ap (λ n. n / 2 ^ (8 * k)) (omega arith)
    ∙ div-div-eq-div-mul (b + 256 * bytes_value bs) 256 (2 ^ (8 * k))
    ∙ ap (λ n. (b + 256 * bytes_value bs) / n)
        (sym (pow-add 8 (8 * k)) ∙ ap (λ n. 2 ^ n) (omega arith))

pub value-start :
    (bytes : List ℕ) (start : ℕ)
    → AllBytes bytes
    → bytes_value (drop (start / 8) bytes) / 2 ^ (start % 8) ≡ bytes_value bytes / 2 ^ start
value-start bytes start h =
    ap (λ n. n / 2 ^ (start % 8)) (value-drop (start / 8) bytes h)
    ∙ div-div-eq-div-mul (bytes_value bytes) (2 ^ (8 * (start / 8))) (2 ^ (start % 8))
    ∙ ap (λ n. bytes_value bytes / n)
        (sym (pow-add (8 * (start / 8)) (start % 8)) ∙ ap (λ n. 2 ^ n) (omega arith))

-- `width` bits of it, as a number.
abbrev pub slice : List ℕ → ℕ → ℕ → ℕ
slice bytes start width = bytes_value bytes / 2 ^ start % 2 ^ width

-- The bytes of an unsigned integer, the lowest first.
unfoldable pub to_bytes : ℕ → ℕ → List ℕ
to_bytes zero n = []
to_bytes (suc count) n = n % 256 ∷ to_bytes count (n / 256)

pub length-to_bytes : (count n : ℕ) → length (to_bytes count n) ≡ count
unfolding to_bytes
length-to_bytes zero n = refl
length-to_bytes (suc count) n = ap suc (length-to_bytes count (n / 256))
