-- ===== src/Can/Construct.antt =====
-- `CanNode::ConstructMessage` of can/can.cc: a message of one frame. `wire` gives, for the number
-- of a field, what its value divided by its resolution is converted to. The frame and the
-- identifier start with what is found in memory.
pub mod Laws
pub mod Placed
pub mod Roundtrip
mod Tests
use boat.Prelude.{
  ℕ, zero, suc, ◌+◌, ◌-◌, ◌*◌, ◌/◌, ◌%◌, ◌<◌, Bool, true, false, not, Option, none, some, List, [],
  ◌∷◌, ltb, ◌==◌, if◌then◌else◌, set, u8, u64,
}
use boat.Can.Id.{CanId, new_id, set_pgn, construct_id}
use boat.Can.Field.{Resolution, scaled, Field}
use boat.Can.Packet.{Pgn, Frame, copy_bytes}
use boat.Prelude.Bytes.{to_bytes, length-to_bytes}

-- A return of false, a write outside of the eight bytes of the frame, or the bytes and their
-- number.
pub data Written : Type 0 where
  refused : Written
  overrun : Written
  written : List ℕ → ℕ → Written

-- `memcpy` of the low bytes of `n_wire`.
pub write_field : Resolution → ℕ → List ℕ → ℕ → ℕ → Option (List ℕ)
write_field (scaled n) count bytes can_dlc n_wire =
    copy_bytes count bytes can_dlc (to_bytes 8 (u64 n_wire))
write_field _ count bytes can_dlc n_wire = some bytes

-- The loop over the fields from number `i + 1` on.
pub write_fields : (ℕ → ℕ) → ℕ → List Field → List ℕ → ℕ → Written
write_fields wire i [] bytes can_dlc = written bytes can_dlc
write_fields wire i (f ∷ fs) bytes can_dlc =
    if not (f.size % 8 == 0)
    then refused
    else elim (write_field f.resolution (f.size / 8) bytes can_dlc (wire (i + 1))) [
      | none ↦ overrun
      | some bytes' ↦ write_fields wire (i + 1) fs bytes' (u8 (can_dlc + f.size / 8))
    ]

-- `count` bytes of filling.
pub fill : ℕ → List ℕ → ℕ → List ℕ
fill zero bytes can_dlc = bytes
fill (suc count) bytes can_dlc = fill count (set bytes can_dlc 0xff) (can_dlc + 1)

pub data Constructed : Type 0 where
  no_frame : Constructed
  fault : Constructed
  constructed : Frame → Constructed

-- The identifier and the filling.
pub finish : Pgn → CanId → Written → Constructed
finish p found refused = no_frame
finish p found overrun = fault
finish p found (written bytes can_dlc) = constructed (record {
  can_id = construct_id (record (set_pgn (new_id found) p.pgn) { priority = 0x5; source = 0x15 });
  can_dlc = if ltb can_dlc 8 then 8 else can_dlc;
  bytes = fill (8 - can_dlc) bytes can_dlc;
})

pub construct_message : Pgn → (ℕ → ℕ) → CanId → List ℕ → Constructed
construct_message p wire found bytes = finish p found (write_fields wire 0 p.fields bytes 0)
