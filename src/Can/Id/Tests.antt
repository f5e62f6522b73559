-- ===== src/Can/Id/Tests.antt =====
-- Instances for the frame identifier (can/pgn.cc, can/can_test.cc).
use boat.Prelude.{◌≡◌, refl, arith}
use boat.Can.Id.{CanId, construct_id, set_pgn}
use boat.Can.Id.Laws.{IsValid}

-- The identifier that `ConstructMessage` fills in: priority 5 and source 0x15.
abbrev outgoing : CanId
outgoing = record {
  source = 0x15;
  ps = 0;
  pf = 0;
  dp = 0;
  reserved = 0;
  priority = 5;
  unused = 0;
  eff_ident = 1;
}

outgoing-IsValid : IsValid outgoing
outgoing-IsValid = omega arith

heading_id : construct_id (set_pgn outgoing 127250) ≡ 0x95f11215
unfolding construct_id set_pgn
heading_id = refl
