-- ===== src/Can/Construct/Placed.antt =====
-- The bytes of a frame that can/can.cc makes: each field stands at its place.
use native.Mathlib.Nat.{mod-one}
use boat.Prelude.{
  ℕ, zero, suc, ◌+◌, ◌*◌, ◌/◌, ◌%◌, ◌^◌, ◌<◌, ◌≤◌, ◌≡◌, refl, ap, sym, ◌∙◌, some, List, [], ◌∷◌,
  length, ltb, ==_iff, arith, get_or, set, subst, Bool-cases, inl, inr, drop, u8, u64,
}
use boat.Prelude.Bits.{mod-mul, pow-add, pow-pos}
use boat.Prelude.Bytes.{
  bytes_value, AllBytes, slice, to_bytes, length-to_bytes, value-drop, drop-AllBytes,
}
use boat.Can.Field.{Field}
use boat.Can.Packet.{copy_bytes}
use boat.Can.Packet.Copy.{copy_bytes_lem}
use boat.Can.Construct.{written, write_field, write_fields}
use boat.Can.Construct.Laws.{AllWhole, total}

some_inj : {a b : List ℕ} → some a ≡ some b → a ≡ b
some_inj e = ground arith

byte_power : (k : ℕ) → 2 ^ (8 * suc k) ≡ 256 * 2 ^ (8 * k)
byte_power k = ap (λ n. 2 ^ n) (omega arith) ∙ pow-add 8 (8 * k)

low_byte : (k b v : ℕ) → b < 256 → (b + 256 * v) % 2 ^ (8 * suc k) ≡ b + 256 * (v % 2 ^ (8 * k))
low_byte k b v h =
    ap (λ m. (b + 256 * v) % m) (byte_power k) ∙ mod-mul b v 256 (2 ^ (8 * k)) h (pow-pos (8 * k))

low_byte_of : (k n : ℕ) → n % 2 ^ (8 * suc k) ≡ n % 256 + 256 * (n / 256 % 2 ^ (8 * k))
low_byte_of k n =
    ap (λ m. m % 2 ^ (8 * suc k)) (omega arith) ∙ low_byte k (n % 256) (n / 256) (omega arith)

-- Bytes that agree with those of a number have its value.
agreeing :
    (k count n : ℕ) (bytes : List ℕ)
    → k ≤ count
    → AllBytes bytes
    → ((i : ℕ) → i < k → get_or bytes i 0 ≡ get_or (to_bytes count n) i 0)
    → bytes_value bytes % 2 ^ (8 * k) ≡ n % 2 ^ (8 * k)
unfolding bytes_value to_bytes
agreeing zero count n bytes c h e = omega (arith, mod-one n, mod-one (bytes_value bytes))
agreeing (suc k) zero n bytes c h e = absurd (omega arith)
agreeing (suc k) (suc count) n [] c h e = omega (
  arith,
  low_byte k 0 0 (omega arith),
  low_byte_of k n,
  e 0 (omega arith),
  agreeing k count (n / 256) [] (omega arith) h (λ i b. e (suc i) (omega arith)),
)
agreeing (suc k) (suc count) n (b ∷ bytes) c h e = omega (
  arith,
  low_byte k b (bytes_value bytes) h.0,
  low_byte_of k n,
  e 0 (omega arith),
  agreeing k count (n / 256) bytes (omega arith) h.1 (λ i j. e (suc i) (omega arith)),
)

get_or-drop : (d i : ℕ) (xs : List ℕ) → get_or (drop d xs) i 0 ≡ get_or xs (d + i) 0
get_or-drop zero i xs = ap (λ k. get_or xs k 0) (omega arith)
get_or-drop (suc d) i [] = refl
get_or-drop (suc d) i (x ∷ xs) = get_or-drop d i xs ∙ ap (λ k. get_or (x ∷ xs) k 0) (suc_add d i)
  where
    suc_add : (d i : ℕ) → suc (d + i) ≡ suc d + i
    suc_add d i = omega arith

-- A slice of whole bytes that agree with those of a number.
pub slice_of :
    (d k n : ℕ) (bytes : List ℕ)
    → k ≤ 8
    → AllBytes bytes
    → ((i : ℕ) → i < k → get_or bytes (d + i) 0 ≡ get_or (to_bytes 8 n) i 0)
    → slice bytes (8 * d) (8 * k) ≡ n % 2 ^ (8 * k)
slice_of d k n bytes c h e =
    ap (λ v. v % 2 ^ (8 * k)) (sym (value-drop d bytes h))
    ∙ agreeing k 8 n (drop d bytes) c (drop-AllBytes d bytes h)
        (λ i b. get_or-drop d i bytes ∙ e i b)

to_bytes-AllBytes : (count n : ℕ) → AllBytes (to_bytes count n)
unfolding to_bytes
to_bytes-AllBytes zero n = tt
to_bytes-AllBytes (suc count) n = (omega arith, to_bytes-AllBytes count (n / 256))

pub set-AllBytes : (bytes : List ℕ) (i b : ℕ) → AllBytes bytes → b < 256 → AllBytes (set bytes i b)
set-AllBytes [] i b h c = tt
set-AllBytes (x ∷ bytes) zero b h c = (c, h.1)
set-AllBytes (x ∷ bytes) (suc i) b h c = (h.0, set-AllBytes bytes i b h.1 c)

copy_bytes-AllBytes :
    (count : ℕ) (target : List ℕ) (start : ℕ) (source r : List ℕ)
    → AllBytes target
    → AllBytes source
    → copy_bytes count target start source ≡ some r
    → AllBytes r
unfolding copy_bytes
copy_bytes-AllBytes zero target start source r t s e = subst AllBytes (some_inj e) t
copy_bytes-AllBytes (suc count) target start [] r t s e = absurd (ground arith)
copy_bytes-AllBytes (suc count) target start (b ∷ source) r t s e =
    elim (Bool-cases (ltb start (length target))) [
      | inl room ↦
          copy_bytes-AllBytes count (set target start b) (start + 1) source r
            (set-AllBytes target start b t s.0) s.1 (rw room at e)
      | inr full ↦ absurd (ground arith)
    ]

-- Every field from number `i + 1` on stands in the bytes, from `d` on.
unfoldable pub AllPlaced : (ℕ → ℕ) → ℕ → List Field → List ℕ → ℕ → Type 0
AllPlaced wire i [] bytes d = Unit {0}
AllPlaced wire i (f ∷ fs) bytes d =
    ((j : ℕ)
      → j < f.size / 8
      → get_or bytes (d + j) 0 ≡ get_or (to_bytes 8 (u64 (wire (i + 1)))) j 0)
    × AllPlaced wire (i + 1) fs bytes (d + f.size / 8)

-- What the loop leaves.
pub record Loaded (wire : ℕ → ℕ) (i : ℕ) (fs : List Field) (bytes : List ℕ) (d : ℕ) (r : List ℕ)
    : Type 0 where
  pub size : length r ≡ 8
  pub all_bytes : AllBytes r
  pub kept : (j : ℕ) → j < d → get_or r j 0 ≡ get_or bytes j 0
  pub placed : AllPlaced wire i fs r d

pub write_fields-Loaded :
    (wire : ℕ → ℕ) (i : ℕ) (fs : List Field) (bytes : List ℕ) (d : ℕ)
    → AllWhole fs
    → length bytes ≡ 8
    → AllBytes bytes
    → d + total fs ≤ 8
    → (r : List ℕ) × (write_fields wire i fs bytes d ≡ written r (d + total fs))
      × Loaded wire i fs bytes d r
unfolding write_fields AllWhole total write_field AllPlaced
write_fields-Loaded wire i [] bytes d w l b fit = (
  bytes,
  ap (written bytes) (omega arith),
  record { size = l; all_bytes = b; kept = λ j h. refl; placed = tt },
)
write_fields-Loaded wire i (f ∷ fs) bytes d ((n, r), whole, small, w) l b fit =
    let c = f.size / 8 in
    let source = to_bytes 8 (u64 (wire (i + 1))) in
    let next : u8 (d + c) ≡ d + c = omega arith in
    let (r1, e, cp) =
      copy_bytes_lem c bytes d source (omega (arith, length-to_bytes 8 (u64 (wire (i + 1)))))
        (omega arith) in
    let b1 =
      copy_bytes-AllBytes c bytes d source r1 b (to_bytes-AllBytes 8 (u64 (wire (i + 1)))) e in
    let (r2, e2, ld) =
      write_fields-Loaded wire (i + 1) fs r1 (d + c) w (cp.same_length ∙ l) b1 (omega arith) in
    let loop : write_fields wire i (f ∷ fs) bytes d ≡ write_fields wire (i + 1) fs r1 (u8 (d + c)) =
      rw (write_fields, (==_iff _ _).1 whole, r, write_field, e) refl in
    (
      r2,
      loop ∙ ap (write_fields wire (i + 1) fs r1) next ∙ e2 ∙ ap (written r2) (omega arith),
      record {
        size = ld.size;
        all_bytes = ld.all_bytes;
        kept = λ j h. ld.kept j (omega arith) ∙ cp.outside j h;
        placed = (λ j h. ld.kept (d + j) (omega arith) ∙ cp.inside j h, ld.placed);
      },
    )
