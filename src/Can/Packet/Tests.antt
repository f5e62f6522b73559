-- ===== src/Can/Packet/Tests.antt =====
-- Instances for fast packets (can/can.cc).
use boat.Prelude.{ℕ, ◌<◌, ◌≡◌, refl, none, some, List, [], ◌∷◌, ◌++◌, get_or, arith}
use boat.Can.Packet.{Pgn, CanMessage, Frame, new_message, Messages, update}
use boat.Can.Packet.Join.{store_packet, packet_joined}

-- GNSS position data.
abbrev gnss : Pgn
gnss = record { pgn = 129029; size = 51; fields = [] }

abbrev gnss_message : CanMessage
gnss_message = new_message gnss

abbrev payload : List ℕ
payload = 1 ∷ 2 ∷ 3 ∷ 4 ∷ 5 ∷ 6 ∷ 7 ∷ 8 ∷ 9 ∷ 10 ∷ 11 ∷ 12 ∷ 13 ∷ 14 ∷ 15 ∷ 16 ∷ 17 ∷ 18 ∷ []

abbrev filling : List ℕ
filling = 255 ∷ 255 ∷ []

abbrev full_frame : ℕ → Frame
full_frame first = record {
  can_id = 0x09f80503;
  can_dlc = 8;
  bytes = first ∷ 1 ∷ 2 ∷ 3 ∷ 4 ∷ 5 ∷ 6 ∷ 7 ∷ [];
}

abbrev listening : Messages
listening = update (λ k. none) 129029 gnss_message

packet_joined_example :
    (m' : CanMessage) × (store_packet 64 18 (payload ++ filling) 0x09f80503 0 3 gnss_message
      ≡ some m')
    × ((i : ℕ) → i < 18 → get_or m'.bytes i 0 ≡ get_or payload i 0)
unfolding new_message
packet_joined_example =
    packet_joined 2 64 0x09f80503 payload filling gnss_message (omega arith) refl (omega arith) refl
      refl (omega arith)
