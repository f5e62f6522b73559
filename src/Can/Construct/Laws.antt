-- ===== src/Can/Construct/Laws.antt =====
-- What can/can.cc makes of a message that it is to send.
use boat.Prelude.{
  ℕ, ◌+◌, ◌/◌, ◌%◌, ◌^◌, ◌<◌, ◌≤◌, ◌≡◌, refl, ap, sym, ◌∙◌, List, [], ◌∷◌, length, ltb, ==_iff,
  arith, Bool-cases, inl, inr, u8, u64,
}
use boat.Can.Id.{CanId, new_id, set_pgn, get_pgn, construct_id, retrieve_id}
use boat.Can.Id.Laws.{IsValid, retrieve-construct, set_pgn-IsValid, broadcast_part, get-set_pgn}
use boat.Can.Field.{scaled, Field}
use boat.Can.Packet.{Pgn, Frame}
use boat.Can.Packet.Copy.{copy_bytes_lem, copy_bytes_past}
use boat.Can.Construct.{
  Written, refused, overrun, written, write_field, write_fields, Constructed, no_frame, fault,
  constructed, construct_message, finish,
}
use boat.Prelude.Bytes.{to_bytes, length-to_bytes}

-- The identifier that is sent.
abbrev sent_id : Pgn → CanId → CanId
sent_id p found = record (set_pgn (new_id found) p.pgn) { priority = 0x5; source = 0x15 }

-- The number of the identifier, if there is a frame.
can_id_or : ℕ → Constructed → ℕ
can_id_or n no_frame = n
can_id_or n fault = n
can_id_or n (constructed frame) = frame.can_id

finish-can_id :
    (p : Pgn) (found : CanId) (w : Written)
    → can_id_or (construct_id (sent_id p found)) (finish p found w) ≡ construct_id (sent_id p found)
unfolding can_id_or finish
finish-can_id p found refused = refl
finish-can_id p found overrun = refl
finish-can_id p found (written bytes can_dlc) = refl

sent_id-IsValid : (p : Pgn) (found : CanId) → IsValid found → IsValid (sent_id p found)
unfolding new_id
sent_id-IsValid p found v = ground (arith, set_pgn-IsValid {id = new_id found} p.pgn)

sent_id-pgn :
    (p : Pgn) (found : CanId) → p.pgn < 2 ^ 17 → get_pgn (sent_id p found) ≡ broadcast_part p.pgn
unfolding get_pgn
sent_id-pgn p found h = get-set_pgn (new_id found) p.pgn h

-- The identifier of every frame that is made carries the broadcast part of the PGN, the priority 5
-- and the source 0x15, whatever was in memory before.
constructed_id :
    (p : Pgn) (wire : ℕ → ℕ) (found : CanId) (bytes : List ℕ) (frame : Frame)
    → IsValid found
    → p.pgn < 2 ^ 17
    → construct_message p wire found bytes ≡ constructed frame
    → let id = retrieve_id frame.can_id in
      (get_pgn id ≡ broadcast_part p.pgn) × (id.priority ≡ 5) × (id.source ≡ 0x15)
unfolding construct_message can_id_or
constructed_id p wire found bytes frame v h e =
    let number : frame.can_id ≡ construct_id (sent_id p found) =
      ap (can_id_or (construct_id (sent_id p found))) (sym e)
      ∙ finish-can_id p found (write_fields wire 0 p.fields bytes 0) in
    let back : retrieve_id frame.can_id ≡ sent_id p found =
      ap retrieve_id number ∙ retrieve-construct (sent_id p found) (sent_id-IsValid p found v) in
    (
      ap get_pgn back ∙ sent_id-pgn p found h,
      ap (λ (id : CanId). id.priority) back,
      ap (λ (id : CanId). id.source) back,
    )

-- The fields are numbers of whole bytes, of at most 8 each.
unfoldable pub AllWhole : List Field → Type 0
AllWhole [] = Unit {0}
AllWhole (f ∷ fs) =
    ((n : ℕ) × (f.resolution ≡ scaled n)) × (f.size % 8 ≡ 0) × (f.size ≤ 64) × AllWhole fs

unfoldable pub total : List Field → ℕ
total [] = 0
total (f ∷ fs) = f.size / 8 + total fs

write_fields-overrun :
    (wire : ℕ → ℕ) (i : ℕ) (fs : List Field) (bytes : List ℕ) (can_dlc : ℕ)
    → AllWhole fs
    → length bytes ≡ 8
    → can_dlc ≤ 8
    → 8 < can_dlc + total fs
    → write_fields wire i fs bytes can_dlc ≡ overrun
unfolding write_fields AllWhole total write_field
write_fields-overrun wire i [] bytes can_dlc w l d past = absurd (omega arith)
write_fields-overrun wire i (f ∷ fs) bytes can_dlc ((n, r), whole, small, w) l d past =
    let source = to_bytes 8 (u64 (wire (i + 1))) in
    elim (Bool-cases (ltb 8 (can_dlc + f.size / 8))) [
      | inl over ↦
          rw
            (
              write_fields,
              (==_iff _ _).1 whole,
              r,
              write_field,
              copy_bytes_past (f.size / 8) bytes can_dlc source (ground arith) (ground arith),
            )
            refl
      | inr fits ↦
          let within : can_dlc + f.size / 8 ≤ 8 = ground arith in
          let (bytes', e, c) =
            copy_bytes_lem (f.size / 8) bytes can_dlc source
              (omega (arith, length-to_bytes 8 (u64 (wire (i + 1))))) (omega arith) in
          let next : u8 (can_dlc + f.size / 8) ≡ can_dlc + f.size / 8 = omega arith in
          (rw (write_fields, (==_iff _ _).1 whole, r, write_field, e) refl)
          ∙ write_fields-overrun wire (i + 1) fs bytes' (u8 (can_dlc + f.size / 8)) w
              (c.same_length ∙ l) (omega (arith, next)) (omega (arith, next))
    ]

-- The frame is not bounded by the size of the message: one of scaled
-- fields of whole bytes, more than eight in all, is written behind the end of the frame.
pub long_message_overruns :
    (p : Pgn) (wire : ℕ → ℕ) (found : CanId) (bytes : List ℕ)
    → AllWhole p.fields
    → 8 < total p.fields
    → length bytes ≡ 8
    → construct_message p wire found bytes ≡ fault
unfolding construct_message finish
long_message_overruns p wire found bytes w h l =
    ap (finish p found)
      (write_fields-overrun wire 0 p.fields bytes 0 w l (omega arith) (omega arith))
