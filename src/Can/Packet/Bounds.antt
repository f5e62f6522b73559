-- ===== src/Can/Packet/Bounds.antt =====
-- Where a frame of can/can.cc overruns the buffer of its message, when a message is decoded, and
-- which message a frame goes to.
use boat.Prelude.{
  length-drop, ℕ, ◌+◌, ◌-◌, ◌*◌, ◌/◌, ◌%◌, ◌≤◌, ◌<◌, ◌≡◌, refl, ap, ◌∙◌, ◌≢◌, Bool, true, none,
  some, drop, length, length-replicate, get_or, le→leb, lt→ltb, if◌then◌else◌, arith, replicate,
  ◌⊎◌, inl, inr, Option-cases,
}
use boat.Can.Id.{get_pgn, retrieve_id}
use boat.Can.Packet.{
  Pgn, CanMessage, Frame, new_message, locate, store_part, store_frame, Messages, update, ignored,
  stored, fault, iterate,
}
use boat.Can.Packet.Copy.{header_lem, copy_bytes_past, copy_bytes_lem}
use boat.Can.Packet.Join.{store_located}

-- The part that a full later frame of a long message carries.
locate_later :
    (m : CanMessage) (f : Frame) (k : ℕ)
    → m.is_long ≡ true
    → get_or f.bytes 0 0 < 256
    → get_or f.bytes 0 0 % 32 ≡ k
    → 0 < k
    → f.can_dlc ≡ 8
    → locate m f
      ≡ record { data_start = k * 7 - 1; dlc = 7; source = drop 1 f.bytes; base = m.base }
unfolding locate
locate_later m f k l b i p d = rw (l, (header_lem (get_or f.bytes 0 0) b).0, i, d) (ground arith)

-- A full frame with an index whose place lies past the end of the buffer that was allocated for its
-- message makes the node write outside of that buffer.
high_index_overflows :
    (p : Pgn) (f : Frame) (k : ℕ)
    → 8 < p.size
    → get_or f.bytes 0 0 < 256
    → get_or f.bytes 0 0 % 32 ≡ k
    → 0 < k
    → f.can_dlc ≡ 8
    → (p.size / 8 + 1) * 8 < 7 * k + 6
    → store_frame (new_message p) f ≡ none
unfolding store_frame new_message store_part
high_index_overflows p f k long b i pos d past =
    ap (store_part (new_message p))
      (locate_later (new_message p) f k (lt→ltb 8 p.size long) b i pos d)
    ∙ (rw (
      store_part,
      copy_bytes_past 7 (replicate ((p.size / 8 + 1) * 8) 0) (k * 7 - 1) (drop 1 f.bytes) overrun
          (omega arith),
    ))
  where
    overrun : length {A = ℕ} (replicate ((p.size / 8 + 1) * 8) 0) < k * 7 - 1 + 7
    overrun = omega (arith, length-replicate {A = ℕ} ((p.size / 8 + 1) * 8) 0)

-- The size of a PGN counts bytes and the test for the last frame counts bits: a long message of up
-- to 104 bytes, with a buffer of 13 bytes at least, is decoded at its second frame, if that is
-- full, which completes 13 bytes of it.
decoded_at_second_frame :
    (m : CanMessage) (f : Frame)
    → m.is_long ≡ true
    → m.len ≤ 104
    → get_or f.bytes 0 0 < 256
    → get_or f.bytes 0 0 % 32 ≡ 1
    → f.can_dlc ≡ 8
    → length f.bytes ≡ 8
    → 13 ≤ length m.bytes
    → (m' : CanMessage) × (store_frame m f ≡ some (m', true))
decoded_at_second_frame m f l n b i d full room =
    let (r, e, c) =
      copy_bytes_lem 7 m.bytes 6 (drop 1 f.bytes) (omega (arith, length-drop 1 f.bytes))
        (omega arith) in
    (
      record m { bytes = r },
      store_located m f _ r (locate_later m f 1 l b i (omega arith) d) e
          ∙ rw (l, le→leb m.len 104 n),
    )

-- A frame reaches only the message of its PGN: one of a PGN that is not listened to is ignored, and
-- of any other either the buffer is overrun or that message alone is changed, by the storing of the
-- frame, and decoded if the frame completes it.
pub iterate_lem :
    (msgs : Messages) (f : Frame)
    → let pgn = get_pgn (retrieve_id f.can_id) in
      ((msgs pgn ≡ none) × (iterate msgs f ≡ ignored))
      ⊎ ((m : CanMessage) × (msgs pgn ≡ some m)
          × (store_frame m f ≡ none)
          × (iterate msgs f ≡ fault))
      ⊎ ((m : CanMessage) × (m' : CanMessage) × (at_end : Bool) × (msgs' : Messages) × (msgs pgn
            ≡ some m)
          × (store_frame m f ≡ some (m', at_end))
          × (iterate msgs f ≡ stored msgs' (if at_end then some m' else none))
          × (msgs' pgn ≡ some m')
          × ((other : ℕ) → other ≢ pgn → msgs' other ≡ msgs other))
unfolding iterate
iterate_lem msgs f =
    let pgn = get_pgn (retrieve_id f.can_id) in
    elim (Option-cases (msgs pgn)) [
      | inl e ↦ inl (e, rw (iterate, e) refl)
      | inr (m, e) ↦ elim (Option-cases (store_frame m f)) [
        | inl e' ↦ inr (inl (m, e, e', rw (iterate, e, e') refl))
        | inr ((m', at_end), e') ↦ inr (
            inr (
              m,
              m',
              at_end,
              update msgs pgn m',
              e,
              e',
              rw (iterate, e, e') refl,
              ground arith,
              λ other ne. ground arith,
            ))
      ]
    ]
