-- ===== src/Can/Id.antt =====
-- can/pgn.h and can/pgn.cc: the 29-bit identifier of a frame and the PGN in it.
pub mod Laws
mod Tests
use boat.Prelude.{ℕ, ◌+◌, ◌-◌, ◌*◌, ◌/◌, ◌%◌, ◌^◌, ltb, leb, if◌then◌else◌, u32}

-- `CANID`. Each field is a number below two to its width.
pub record CanId : Type 0 where
  pub source : ℕ  -- uint8_t
  pub ps : ℕ  -- uint8_t
  pub pf : ℕ  -- uint8_t
  pub dp : ℕ  -- 1 bit
  pub reserved : ℕ  -- 1 bit
  pub priority : ℕ  -- 3 bits
  pub unused : ℕ  -- 2 bits
  pub eff_ident : ℕ  -- 1 bit

-- The constructor sets three fields, and leaves the others as it finds them.
unfoldable pub new_id : CanId → CanId
new_id found = record found { reserved = 0; unused = 0; eff_ident = 1 }

-- The cast to `uint32_t`: little-endian bytes, and bit fields from the lowest bit on.
pub construct_id : CanId → ℕ
construct_id id =
    source
    + 2 ^ 8 * ps
    + 2 ^ 16 * pf
    + 2 ^ 24 * dp
    + 2 ^ 25 * reserved
    + 2 ^ 26 * priority
    + 2 ^ 29 * unused
    + 2 ^ 31 * eff_ident
  where
    open id use {source, ps, pf, dp, reserved, priority, unused, eff_ident}

pub retrieve_id : ℕ → CanId
retrieve_id raw_id = record {
  source = raw_id % 256;
  ps = raw_id / 2 ^ 8 % 256;
  pf = raw_id / 2 ^ 16 % 256;
  dp = raw_id / 2 ^ 24 % 2;
  reserved = raw_id / 2 ^ 25 % 2;
  priority = raw_id / 2 ^ 26 % 8;
  unused = raw_id / 2 ^ 29 % 4;
  eff_ident = raw_id / 2 ^ 31 % 2;
}

unfoldable pub get_pgn : CanId → ℕ
get_pgn id = u32 (2 ^ 16 * id.dp + 2 ^ 8 * id.pf + (if ltb id.pf 240 then 0 else id.ps))

-- `pgn` is the bit pattern of the `int32_t`; the shifts bring down bits of it that the masks keep.
pub set_pgn : CanId → ℕ → CanId
set_pgn id pgn =
    let low = pgn % 256 in
    let id' = record id { pf = pgn / 2 ^ 8 % 256; dp = pgn / 2 ^ 16 % 2 } in
    if leb 240 id'.pf then record id' { ps = low } else id'
