-- ===== src/Can/Id/Laws.antt =====
-- Round trips of the frame identifier (can/pgn.cc).
use boat.Prelude.{ℕ, ◌*◌, ◌/◌, ◌%◌, ◌^◌, ◌<◌, ◌≡◌, ltb, if◌then◌else◌, arith, ◌∙◌, ap}
use boat.Can.Id.{CanId, construct_id, retrieve_id, get_pgn, set_pgn}

-- The fields keep to their widths.
pub record IsValid (id : CanId) : Type 0 where
  pub source_byte : id.source < 256
  pub ps_byte : id.ps < 256
  pub pf_byte : id.pf < 256
  pub dp_bit : id.dp < 2
  pub reserved_bit : id.reserved < 2
  pub priority_bits : id.priority < 8
  pub unused_bits : id.unused < 4
  pub eff_bit : id.eff_ident < 2

-- Casting an identifier to a number and back gives the identifier.
pub retrieve-construct : (id : CanId) → IsValid id → retrieve_id (construct_id id) ≡ id
unfolding retrieve_id construct_id
retrieve-construct id v = ground arith

-- Casting a 32-bit number to an identifier and back gives the number, and the fields keep to their
-- widths.
construct-retrieve :
    (raw : ℕ) → raw < 2 ^ 32 → (construct_id (retrieve_id raw) ≡ raw) × IsValid (retrieve_id raw)
unfolding retrieve_id construct_id
construct-retrieve raw h = (omega arith, omega arith)

pub set_pgn-IsValid : {id : CanId} (pgn : ℕ) → IsValid id → IsValid (set_pgn id pgn)
unfolding set_pgn
set_pgn-IsValid {id} pgn v = ground arith

-- What is read back of a PGN: all of a broadcast one, and of one below 240 in its middle byte,
-- which has an address in the low byte, the upper part.
pub broadcast_part : ℕ → ℕ
broadcast_part pgn = if ltb (pgn / 256 % 256) 240 then pgn / 256 * 256 else pgn

pub get-set_pgn :
    (id : CanId) (pgn : ℕ) → pgn < 2 ^ 17 → get_pgn (set_pgn id pgn) ≡ broadcast_part pgn
unfolding get_pgn set_pgn broadcast_part
get-set_pgn id pgn h = ground arith

-- A PGN of up to 17 bits that is put into an identifier, sent as a number and read back at the
-- other end gives its broadcast part.
pgn_on_the_wire :
    {id : CanId} (pgn : ℕ)
    → IsValid id
    → pgn < 2 ^ 17
    → get_pgn (retrieve_id (construct_id (set_pgn id pgn))) ≡ broadcast_part pgn
pgn_on_the_wire {id} pgn v h =
    ap get_pgn (retrieve-construct (set_pgn id pgn) (set_pgn-IsValid pgn v)) ∙ get-set_pgn id pgn h
