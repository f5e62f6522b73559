-- ===== src/Can/Packet.antt =====
-- `CanNode::Iterate` of can/can.cc behind the read, and `CANMessage` of can/can.h: a frame is put
-- into the buffer of its PGN, and fast packets are joined. What the source leaves undefined, a
-- write or read outside of an array, is a fault.
pub mod Copy
pub mod Join
pub mod Bounds
mod Tests
use Prim.Native.Nat.{bit_and}
use boat.Prelude.{
  ℕ, zero, suc, ◌+◌, ◌-◌, ◌*◌, ◌/◌, ◌%◌, ◌^◌, Bool, true, false, not, ◌||◌, Option, none, some,
  List, [], ◌∷◌, ltb, leb, ◌==◌, if◌then◌else◌, length, get_or, set, drop, replicate, u32, sub64,
}
use boat.Can.Id.{get_pgn, retrieve_id}
use boat.Can.Field.{Field}

-- `Pgn`, with the fields up to the first that has no name.
pub record Pgn : Type 0 where
  pub pgn : ℕ
  pub size : ℕ
  pub fields : List Field

-- `CANMessage`, less the queue.
pub record CanMessage : Type 0 where
  pub pgn : Pgn
  pub is_long : Bool
  pub len : ℕ
  pub base : ℕ
  pub bytes : List ℕ

pub new_message : Pgn → CanMessage
new_message p = record {
  pgn = p;
  is_long = ltb 8 p.size;
  len = p.size;
  base = 0;
  bytes = replicate ((p.size / 8 + 1) * 8) 0;
}

-- `can_frame`.
pub record Frame : Type 0 where
  pub can_id : ℕ
  pub can_dlc : ℕ
  pub bytes : List ℕ

-- `for (i < count) target[start + i] = source[i]`.
unfoldable pub copy_bytes : ℕ → List ℕ → ℕ → List ℕ → Option (List ℕ)
copy_bytes zero target start source = some target
copy_bytes (suc count) target start [] = none
copy_bytes (suc count) target start (b ∷ source) =
    if ltb start (length target)
    then copy_bytes count (set target start b) (start + 1) source
    else none

-- Where the bytes of a frame go: the place, their number, where they stand, and the new `base_`.
pub record Part : Type 0 where
  pub data_start : ℕ
  pub dlc : ℕ
  pub source : List ℕ
  pub base : ℕ

abbrev pub frame_index : Frame → ℕ
frame_index f = bit_and (get_or f.bytes 0 0) 0x1f

abbrev pub frame_base : Frame → ℕ
frame_base f = bit_and (get_or f.bytes 0 0) 0xe0

pub locate : CanMessage → Frame → Part
locate m f =
    if m.is_long
    then (if frame_index f == 0
        then record {
          data_start = 0;
          dlc = sub64 (sub64 f.can_dlc 1) 1;
          source = drop 2 f.bytes;
          base = frame_base f;
        }
        else record {
          data_start = frame_index f * 7 - 1;
          dlc = sub64 f.can_dlc 1;
          source = drop 1 f.bytes;
          base = m.base;
        })
    else record { data_start = 0; dlc = f.can_dlc; source = f.bytes; base = m.base }

-- The message with a part of it in place, and whether it is decoded and sent on.
pub store_part : CanMessage → Part → Option (CanMessage × Bool)
store_part m p =
    let at_end = not m.is_long || leb m.len (8 * (p.data_start + p.dlc)) in
    elim (copy_bytes p.dlc m.bytes p.data_start p.source) [
      | none ↦ none
      | some bytes ↦ some (record m { bytes = bytes; base = p.base }, at_end)
    ]

pub store_frame : CanMessage → Frame → Option (CanMessage × Bool)
store_frame m f = store_part m (locate m f)

-- `msgs_`, by PGN.
abbrev pub Messages : Type 0
Messages = ℕ → Option CanMessage

abbrev pub update : Messages → ℕ → CanMessage → Messages
update msgs pgn m k = if k == pgn then some m else msgs k

-- What a frame does to the node: it is ignored, stored (and decoded if `some`), or a fault.
pub data Iterated : Type 0 where
  ignored : Iterated
  stored : Messages → Option CanMessage → Iterated
  fault : Iterated

pub iterate : Messages → Frame → Iterated
iterate msgs f =
    let pgn = get_pgn (retrieve_id f.can_id) in
    elim (msgs pgn) [
      | none ↦ ignored
      | some m ↦ elim (store_frame m f) [
        | none ↦ fault
        | some (m', at_end) ↦ stored (update msgs pgn m') (if at_end then some m' else none)
      ]
    ]
