-- ===== src/Can/Packet/Join.antt =====
-- Fast packets of can/can.cc: the frames of a packet in order leave its payload in the buffer.
use native.Mathlib.Decide.{dec_lt}
use native.Mathlib.Nat.{suc-add}
use native.Mathlib.Numerals.{add-one}
use boat.Prelude.{
  subst, length-take, length-drop, ℕ, zero, suc, ◌+◌, ◌-◌, ◌*◌, ◌%◌, ◌≤◌, ◌<◌, ◌≡◌, refl, ap, sym,
  ◌∙◌, Bool, true, not, ◌||◌, Option, none, some, List, [], ◌∷◌, leb, length, length-append, ◌++◌,
  get_or, drop, take, arith,
}
use boat.Can.Packet.{CanMessage, Frame, Part, copy_bytes, locate, store_part, store_frame}
use boat.Can.Packet.Copy.{Copied, copy_bytes_lem, header_lem}

-- Frame `k` of the packet with the sequence bits `base`, the length `len` and the bytes `p`: the length
-- and six bytes in the first, and seven in each other.
pub packet_frame : ℕ → ℕ → List ℕ → ℕ → ℕ → Frame
packet_frame base len p can_id zero = record {
  can_id = can_id;
  can_dlc = 8;
  bytes = base ∷ len ∷ take 6 p;
}
packet_frame base len p can_id (suc k) = record {
  can_id = can_id;
  can_dlc = 8;
  bytes = (base + suc k) ∷ take 7 (drop (7 * k + 6) p);
}

-- `count` frames from `k` on, one after another.
pub store_packet : ℕ → ℕ → List ℕ → ℕ → ℕ → ℕ → CanMessage → Option CanMessage
store_packet base len p can_id k zero m = some m
store_packet base len p can_id k (suc count) m =
    elim (store_frame m (packet_frame base len p can_id k)) [
      | none ↦ none
      | some (m', at_end) ↦ store_packet base len p can_id (k + 1) count m'
    ]

-- What holds of a message that has the first `n` bytes of `p`.
record Has (base : ℕ) (p : List ℕ) (n : ℕ) (m : CanMessage) : Type 0 where
  long : m.is_long ≡ true
  room : length p ≤ length m.bytes
  same_base : m.base ≡ base
  prefix : (i : ℕ) → i < n → get_or m.bytes i 0 ≡ get_or p i 0

pub store_located :
    (m : CanMessage) (f : Frame) (part : Part) (r : List ℕ)
    → locate m f ≡ part
    → copy_bytes part.dlc m.bytes part.data_start part.source ≡ some r
    → store_frame m f
      ≡ some (
        record m { bytes = r; base = part.base },
        not m.is_long || leb m.len (8 * (part.data_start + part.dlc)),
      )
unfolding store_frame store_part
store_located m f part r e c = ap (store_part m) e ∙ (rw (store_part, c))

locate_first :
    (base len can_id : ℕ) (p : List ℕ) (m : CanMessage)
    → base < 256
    → base % 32 ≡ 0
    → m.is_long ≡ true
    → locate m (packet_frame base len p can_id zero)
      ≡ record { data_start = 0; dlc = 6; source = take 6 p; base = base }
unfolding locate packet_frame
locate_first base len can_id p m hb hz l =
    rw (l, (header_lem base hb).0, (header_lem base hb).1, hz) (ground arith)

locate_next :
    (base len can_id k : ℕ) (p : List ℕ) (m : CanMessage)
    → base < 256
    → base % 32 ≡ 0
    → k < 31
    → m.is_long ≡ true
    → locate m (packet_frame base len p can_id (suc k)) ≡ record {
      data_start = 7 * k + 6;
      dlc = 7;
      source = take 7 (drop (7 * k + 6) p);
      base = m.base;
    }
unfolding locate packet_frame
locate_next base len can_id k p m hb hz hk l =
    rw (l, (header_lem (base + suc k) (omega arith)).0, index) (ground arith)
  where
    index : (base + suc k) % 32 ≡ suc k
    index = omega arith

get_or-take : (n i : ℕ) (xs : List ℕ) → i < n → get_or (take n xs) i 0 ≡ get_or xs i 0
get_or-take zero i xs h = absurd (omega arith)
get_or-take (suc n) i [] h = refl
get_or-take (suc n) zero (x ∷ xs) h = refl
get_or-take (suc n) (suc i) (x ∷ xs) h = get_or-take n i xs (omega arith)

get_or-drop : (n i : ℕ) (xs : List ℕ) → get_or (drop n xs) i 0 ≡ get_or xs (n + i) 0
get_or-drop zero i xs = ap (λ k. get_or xs k 0) (omega arith)
get_or-drop (suc n) i [] = refl
get_or-drop (suc n) i (x ∷ xs) = rw suc-add (get_or-drop n i xs)

first_frame :
    (base len can_id : ℕ) (p : List ℕ) (m : CanMessage)
    → base < 256
    → base % 32 ≡ 0
    → m.is_long ≡ true
    → length p ≤ length m.bytes
    → 6 ≤ length p
    → (m' : CanMessage) × (at_end : Bool) × (store_frame m (packet_frame base len p can_id zero)
        ≡ some (m', at_end))
      × Has base p 6 m'
first_frame base len can_id p m hb hz l room n =
    let (r, e, c) =
      copy_bytes_lem 6 m.bytes 0 (take 6 p) (omega (arith, length-take 6 p)) (omega arith) in
    (
      record m { bytes = r; base = base },
      _,
      store_located m _ _ r (locate_first base len can_id p m hb hz l) e,
      record {
        long = l;
        room = rw c.same_length room;
        same_base = refl;
        prefix = λ i h. ap (λ k. get_or r k 0) (omega arith) ∙ c.inside i h ∙ get_or-take 6 i p h;
      },
    )

next_frame :
    (base len can_id k : ℕ) (p : List ℕ) (m : CanMessage)
    → base < 256
    → base % 32 ≡ 0
    → k < 31
    → 7 * k + 13 ≤ length p
    → Has base p (7 * k + 6) m
    → (m' : CanMessage) × (at_end : Bool) × (store_frame m (packet_frame base len p can_id (suc k))
        ≡ some (m', at_end))
      × Has base p (7 * k + 13) m'
next_frame base len can_id k p m hb hz hk n h =
    let (r, e, c) =
      copy_bytes_lem 7 m.bytes (7 * k + 6) (take 7 (drop (7 * k + 6) p))
        (omega (arith, length-take 7 (drop (7 * k + 6) p), length-drop (7 * k + 6) p))
        (omega (arith, h.room)) in
    (
      record m { bytes = r; base = m.base },
      _,
      store_located m _ _ r (locate_next base len can_id k p m hb hz hk h.long) e,
      record {
        long = h.long;
        room = rw c.same_length (h.room);
        same_base = h.same_base;
        prefix = joined r c;
      },
    )
  where
    joined :
        (r : List ℕ)
        → Copied m.bytes (take 7 (drop (7 * k + 6) p)) (7 * k + 6) 7 r
        → (i : ℕ) → i < 7 * k + 13
        → get_or r i 0 ≡ get_or p i 0
    joined r c i b = elim (dec_lt i (7 * k + 6)) [
      | yes q ↦ c.outside i q ∙ h.prefix i q
      | no q ↦
          let j : ℕ = i - (7 * k + 6) in
          let e : 7 * k + 6 + j ≡ i = omega arith in
          ap (λ n. get_or r n 0) (sym e)
          ∙ c.inside j (omega arith)
          ∙ get_or-take 7 j (drop (7 * k + 6) p) (omega arith)
          ∙ get_or-drop (7 * k + 6) j p
          ∙ ap (λ n. get_or p n 0) e
    ]

next_frames :
    (count k base len can_id : ℕ) (p : List ℕ) (m : CanMessage)
    → base < 256
    → base % 32 ≡ 0
    → k + count ≤ 31
    → 7 * (k + count) + 6 ≤ length p
    → Has base p (7 * k + 6) m
    → (m' : CanMessage) × (store_packet base len p can_id (suc k) count m ≡ some m')
      × Has base p (7 * (k + count) + 6) m'
unfolding store_packet
next_frames zero k base len can_id p m hb hz hk n h =
    (m, refl, subst (λ w. Has base p w m) (omega arith) h)
next_frames (suc count) k base len can_id p m hb hz hk n h =
    let (m', at_end, e, h') =
      next_frame base len can_id k p m hb hz (omega arith) (omega arith) h in
    let (m'', e', h'') =
      next_frames count (suc k) base len can_id p m' hb hz (omega arith) (omega arith)
        (subst (λ w. Has base p w m') (omega arith) h') in
    (m'', rw (store_packet, e, add-one) e', subst (λ w. Has base p w m'') (omega arith) h'')

get_or-append_left :
    (xs ys : List ℕ) (i : ℕ) → i < length xs → get_or (xs ++ ys) i 0 ≡ get_or xs i 0
get_or-append_left [] ys i h = absurd (omega arith)
get_or-append_left (x ∷ xs) ys zero h = refl
get_or-append_left (x ∷ xs) ys (suc i) h = get_or-append_left xs ys i (omega arith)

-- A fast packet of `count + 1` frames of eight bytes, the last filled up behind the payload with bytes
-- of any kind, puts every byte of the payload into its place when it is received in order by a message
-- that has room for the bytes of all frames, whatever the message held before.
pub packet_joined :
    (count base can_id : ℕ) (p fill : List ℕ) (m : CanMessage)
    → base < 256
    → base % 32 ≡ 0
    → count ≤ 31
    → length p + length fill ≡ 7 * count + 6
    → m.is_long ≡ true
    → 7 * count + 6 ≤ length m.bytes
    → (m' : CanMessage) × (store_packet base (length p) (p ++ fill) can_id 0 (suc count) m
        ≡ some m')
      × ((i : ℕ) → i < length p → get_or m'.bytes i 0 ≡ get_or p i 0)
unfolding store_packet
packet_joined count base can_id p fill m hb hz hc n l room =
    let q = p ++ fill in
    let len = length p in
    let whole = length-append p fill in
    let (m', at_end, e, h) =
      first_frame base len can_id q m hb hz l (omega (arith, whole, n, room))
        (omega (arith, whole, n)) in
    let (m'', e', h') =
      next_frames count 0 base len can_id q m' hb hz (omega arith) (omega (arith, whole, n))
        (subst (λ w. Has base q w m') (omega arith) h) in
    (
      m'',
      rw (store_packet, e) e',
      λ i b. h'.prefix i (omega (arith, n)) ∙ get_or-append_left p fill i b,
    )
