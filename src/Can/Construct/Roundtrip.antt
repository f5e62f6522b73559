-- ===== src/Can/Construct/Roundtrip.antt =====
-- What can/can.cc sends and what it decodes of it.
use boat.Prelude.{
  ℕ, zero, suc, ◌+◌, ◌-◌, ◌*◌, ◌/◌, ◌%◌, ◌^◌, ◌<◌, ◌≤◌, ◌≡◌, refl, ap, ap₂, sym, ◌∙◌, Bool, false,
  some, List, [], ◌∷◌, ◌++◌, length, leb, if◌then◌else◌, arith, get_or, set, subst, get_or-set_ne,
  u64,
}
use native.Mathlib.Nat.{mod-eq_of_lt}
use boat.Prelude.Int.{pos}
use boat.Prelude.Bits.{pow-le}
use boat.Prelude.Bytes.{AllBytes, slice, to_bytes}
use boat.Can.Id.{CanId}
use boat.Can.Field.{scaled, Field}
use boat.Can.Packet.{Pgn, Frame, CanMessage}
use boat.Can.Decode.{Store, times, decode_and_send}
use boat.Can.Decode.Fields.{bits_before, scaled_field_decoded}
use boat.Can.Construct.{fill, finish, constructed, construct_message}
use boat.Can.Construct.Laws.{AllWhole, total}
use boat.Can.Construct.Placed.{AllPlaced, Loaded, write_fields-Loaded, slice_of, set-AllBytes}

-- The bytes of one field.
placed-at :
    (wire : ℕ → ℕ) (i : ℕ) (before : List Field) (f : Field) (rest : List Field) (bytes : List ℕ)
    (d : ℕ)
    → AllPlaced wire i (before ++ f ∷ rest) bytes d
    → (j : ℕ) → j < f.size / 8
    → get_or bytes (d + total before + j) 0
      ≡ get_or (to_bytes 8 (u64 (wire (i + length before + 1)))) j 0
unfolding AllPlaced total
placed-at wire i [] f rest bytes d h j b =
    ap (λ k. get_or bytes k 0) (omega arith)
    ∙ h.0 j b
    ∙ ap (λ k. get_or (to_bytes 8 (u64 (wire k))) j 0) (omega arith)
placed-at wire i (g ∷ before) f rest bytes d h j b =
    ap (λ k. get_or bytes k 0) (omega arith)
    ∙ placed-at wire (i + 1) before f rest bytes (d + g.size / 8) h.1 j b
    ∙ ap (λ k. get_or (to_bytes 8 (u64 (wire k))) j 0) (omega arith)

bits_of_bytes :
    (before : List Field) (f : Field) (rest : List Field)
    → AllWhole (before ++ f ∷ rest)
    → (bits_before before ≡ 8 * total before)
      × (f.size ≡ 8 * (f.size / 8))
      × (f.size ≤ 64)
      × (total before + f.size / 8 ≤ total (before ++ f ∷ rest))
unfolding AllWhole total bits_before
bits_of_bytes [] f rest (n, whole, small, w) = (omega arith, omega arith, small, omega arith)
bits_of_bytes (g ∷ before) f rest (n, whole, small, w) =
    let (b, s, l, t) = bits_of_bytes before f rest w in (omega arith, s, l, omega arith)

fill-AllBytes :
    (count : ℕ) (bytes : List ℕ) (d : ℕ) → AllBytes bytes → AllBytes (fill count bytes d)
unfolding fill
fill-AllBytes zero bytes d h = h
fill-AllBytes (suc count) bytes d h =
    fill-AllBytes count (set bytes d 0xff) (d + 1) (set-AllBytes bytes d 0xff h (omega arith))

fill-below :
    (count : ℕ) (bytes : List ℕ) (d j : ℕ)
    → j < d
    → get_or (fill count bytes d) j 0 ≡ get_or bytes j 0
unfolding fill
fill-below zero bytes d j h = refl
fill-below (suc count) bytes d j h =
    fill-below count (set bytes d 0xff) (d + 1) j (omega arith)
    ∙ get_or-set_ne bytes 0xff 0 (omega arith)

-- The bytes of the frame behind the loop.
abbrev filled : List Field → List ℕ → List ℕ
filled fields r = fill (8 - (0 + total fields)) r (0 + total fields)

unreserved : (limit v : ℕ) → v < limit → leb limit v ≡ false
unreserved limit v h = ground arith

power_fits : (k v : ℕ) → k ≤ 64 → v < 2 ^ k → v < 2 ^ 64
power_fits k v h b =
    let e : k + (64 - k) ≡ 64 = omega arith in omega (arith, pow-le k (64 - k), ap (λ n. 2 ^ n) e)

value_in_frame :
    (wire : ℕ → ℕ) (fields : List Field) (bytes r : List ℕ) (before rest : List Field) (f : Field)
    → fields ≡ before ++ f ∷ rest
    → AllWhole fields
    → Loaded wire 0 fields bytes 0 r
    → total fields ≤ 8
    → wire (length before + 1) < 2 ^ f.size - 3
    → AllBytes (filled fields r)
      × (slice (filled fields r) (bits_before before) f.size ≡ wire (length before + 1))
value_in_frame wire fields bytes r before rest f e w ld fit small =
    let n = length before + 1 in
    let (bb, sz, lim, tot) = bits_of_bytes before f rest (subst AllWhole e w) in
    let all = fill-AllBytes (8 - (0 + total fields)) r (0 + total fields) ld.all_bytes in
    let same : total fields ≡ total (before ++ f ∷ rest) = ap total e in
    let placed = subst (λ fs. AllPlaced wire 0 fs r 0) e ld.placed in
    let word : u64 (wire n) ≡ wire n =
      mod-eq_of_lt {n = wire n} {m = 2 ^ 64} (power_fits f.size (wire n) lim (omega arith)) in
    (
      all,
      ap₂ (slice (filled fields r)) bb sz
          ∙ slice_of (total before) (f.size / 8) (u64 (wire n)) (filled fields r) (omega arith) all
              (λ j h.
                fill-below (8 - (0 + total fields)) r (0 + total fields) (total before + j)
                  (omega arith)
                ∙ ap (λ k. get_or r k 0) (omega arith)
                ∙ placed-at wire 0 before f rest r 0 placed j h
                ∙ ap (λ k. get_or (to_bytes 8 (u64 (wire k))) j 0) (omega arith))
          ∙ ap₂ (λ v k. v % 2 ^ k) word (sym sz)
          ∙ mod-eq_of_lt {n = wire n} {m = 2 ^ f.size} (omega arith),
    )

-- A message of scaled fields of whole bytes that fits eight bytes is made, and each field of 8 to
-- 56 bits without a sign, if its value is none of the three highest, is decoded by the receiver as
-- the number that was put in, whatever was in memory and in the receiver's store before.
pub sent_value_decoded :
    (p : Pgn) (wire : ℕ → ℕ) (found : CanId) (bytes : List ℕ) (before rest : List Field) (f : Field)
    (res : ℕ) (m : CanMessage) (store : Store)
    → p.fields ≡ before ++ f ∷ rest
    → AllWhole p.fields
    → total p.fields ≤ 8
    → length bytes ≡ 8
    → AllBytes bytes
    → f.resolution ≡ scaled res
    → f.has_sign ≡ false
    → 4 ≤ f.size
    → f.size < 64
    → wire (length before + 1) < 2 ^ f.size - 3
    → (frame : Frame) × (construct_message p wire found bytes ≡ constructed frame)
      × (decode_and_send (record m { pgn = p; bytes = frame.bytes }) store (length before + 1)
          ≡ some (times (pos (wire (length before + 1))) res))
unfolding construct_message finish
sent_value_decoded p wire found bytes before rest f res m store e w fit l b r u lo hi small =
    let n = length before + 1 in
    let (r0, e0, ld) = write_fields-Loaded wire 0 p.fields bytes 0 w l b (omega arith) in
    let (all, raw) =
      value_in_frame wire p.fields bytes r0 before rest f e w ld (omega arith) small in
    (
      _,
      ap (finish p found) e0,
      scaled_field_decoded (record m { pgn = p; bytes = filled p.fields r0 }) store before rest f
            res e r u lo hi all
          ∙ ap (λ v. if leb (2 ^ f.size - 3) v then store n else some (times (pos v) res)) raw
          ∙ ap (λ (c : Bool). if c then store n else some (times (pos (wire n)) res))
              (unreserved (2 ^ f.size - 3) (wire n) small),
    )
