-- ===== src/Can/Decode/Fields.antt =====
-- What becomes of each field of a message that can/can.cc decodes.
use boat.Prelude.{
  ℕ, ◌+◌, ◌-◌, ◌^◌, ◌<◌, ◌≤◌, ◌≡◌, ◌≢◌, refl, ap, ap₂, sym, ◌∙◌, Bool, true, false, Option, none,
  some, List, [], ◌∷◌, ◌++◌, length, leb, if◌then◌else◌, arith,
}
use boat.Prelude.Int.{pos}
use boat.Prelude.Bytes.{AllBytes, slice}
use boat.Can.Field.{Field, scaled, signed64, is_reserved}
use boat.Can.Field.Extract.{unsigned_field}
use native.Mathlib.Nat.{mod-lt}
use boat.Prelude.Bits.{pow-pos}
use boat.Can.Field.Reserved.{reserved_unsigned, signed64_small, pow_range}
use boat.Can.Packet.{CanMessage}
use boat.Can.Decode.{Value, times, Store, set_decoded, decode_field, decode_fields, decode_and_send}

-- The place of the field behind these.
unfoldable pub bits_before : List Field → ℕ
bits_before [] = 0
bits_before (f ∷ fs) = f.size + bits_before fs

-- The value of a field if it is set, and else what was there.
pub or_else : Option Value → Option Value → Option Value
or_else none old = old
or_else (some v) old = some v

set_decoded_ne :
    (store : Store) (n k : ℕ) (v : Option Value) → k ≢ n → set_decoded store n v k ≡ store k
set_decoded_ne store n k none h = refl
set_decoded_ne store n k (some v) h = ground arith

set_decoded_self :
    (store : Store) (n : ℕ) (v : Option Value) → set_decoded store n v n ≡ or_else v (store n)
unfolding or_else
set_decoded_self store n none = refl
set_decoded_self store n (some v) = ground arith

-- The later fields leave the earlier numbers alone.
decode_fields-below :
    (i : ℕ) (fs : List Field) (bytes : List ℕ) (cur_bit : ℕ) (store : Store) (k : ℕ)
    → k ≤ i
    → decode_fields i fs bytes cur_bit store k ≡ store k
unfolding decode_fields
decode_fields-below i [] bytes cur_bit store k h = refl
decode_fields-below i (f ∷ fs) bytes cur_bit store k h =
    decode_fields-below (i + 1) fs bytes (cur_bit + f.size) _ k (omega arith)
    ∙ set_decoded_ne store (i + 1) k (decode_field f bytes cur_bit) (omega arith)

keep_or_set :
    (reserved : Bool) (v : Value) (old : Option Value)
    → or_else (if reserved then none else some v) old ≡ (if reserved then old else some v)
unfolding or_else
keep_or_set true v old = refl
keep_or_set false v old = refl

decode_fields-at :
    (i n b : ℕ) (before : List Field) (f : Field) (rest : List Field) (bytes : List ℕ) (cur_bit : ℕ)
    (store : Store)
    → i + length before + 1 ≡ n
    → cur_bit + bits_before before ≡ b
    → decode_fields i (before ++ f ∷ rest) bytes cur_bit store n
      ≡ or_else (decode_field f bytes b) (store n)
unfolding decode_fields bits_before
decode_fields-at i n b [] f rest bytes cur_bit store en eb =
    let v = decode_field f bytes cur_bit in
    decode_fields-below (i + 1) rest bytes (cur_bit + f.size) (set_decoded store (i + 1) v) n
      (omega arith)
    ∙ ap (set_decoded store (i + 1) v) (omega arith)
    ∙ set_decoded_self store (i + 1) v
    ∙ ap₂ (λ c k. or_else (decode_field f bytes c) (store k)) (omega arith) (omega arith)
decode_fields-at i n b (g ∷ before) f rest bytes cur_bit store en eb =
    let v = decode_field g bytes cur_bit in
    decode_fields-at (i + 1) n b before f rest bytes (cur_bit + g.size)
      (set_decoded store (i + 1) v) (omega arith) (omega arith)
    ∙ ap (or_else (decode_field f bytes b)) (set_decoded_ne store (i + 1) n v (omega arith))

scaled_value :
    (f : Field) (bytes : List ℕ) (b res : ℕ)
    → f.resolution ≡ scaled res
    → f.has_sign ≡ false
    → 4 ≤ f.size
    → f.size < 64
    → AllBytes bytes
    → decode_field f bytes b ≡ (
        if leb (2 ^ f.size - 3) (slice bytes b f.size)
        then none
        else some (times (pos (slice bytes b f.size)) res))
unfolding decode_field
scaled_value f bytes b res r u lo hi h =
    let raw = slice bytes b f.size in
    let (large, small) = pow_range f.size lo (omega arith) in
    let below : raw < 2 ^ f.size = mod-lt _ (pow-pos f.size) in
    let extracted = unsigned_field f bytes b u (omega arith) h in
    let reserved : is_reserved (signed64 raw) (signed64 (2 ^ f.size - 1))
        ≡ leb (2 ^ f.size - 3) raw =
      ap (λ t. is_reserved (signed64 t.0) (signed64 t.1)) (sym extracted)
      ∙ reserved_unsigned f bytes b u lo (omega arith) h in
    (rw (decode_field, r, extracted) refl)
    ∙ ap₂ (λ c v. if c then none else some (times v res)) reserved
        (signed64_small raw (omega (arith, small)))

-- A scaled unsigned field of 4 to 63 bits at any place in its message is set to the number in the
-- bits behind those of the fields before it; if that is one of the three highest numbers, the field
-- is left as the message that was sent before it had it.
pub scaled_field_decoded :
    (m : CanMessage) (store : Store) (before rest : List Field) (f : Field) (res : ℕ)
    → m.pgn.fields ≡ before ++ f ∷ rest
    → f.resolution ≡ scaled res
    → f.has_sign ≡ false
    → 4 ≤ f.size
    → f.size < 64
    → AllBytes m.bytes
    → let n = length before + 1 in
      let raw = slice m.bytes (bits_before before) f.size in
      decode_and_send m store n
      ≡ (if leb (2 ^ f.size - 3) raw then store n else some (times (pos raw) res))
unfolding decode_and_send
scaled_field_decoded m store before rest f res e r u lo hi h =
    let n = length before + 1 in
    let b = bits_before before in
    ap (λ fs. decode_fields 0 fs m.bytes 0 store n) e
    ∙ decode_fields-at 0 n b before f rest m.bytes 0 store (omega arith) (omega arith)
    ∙ ap (λ v. or_else v (store n)) (scaled_value f m.bytes b res r u lo hi h)
    ∙ keep_or_set (leb (2 ^ f.size - 3) (slice m.bytes b f.size))
        (times (pos (slice m.bytes b f.size)) res) (store n)
