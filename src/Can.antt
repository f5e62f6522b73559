-- ===== src/Can.antt =====
-- can/pgn.cc, can/can.cc and can/can.h: identifiers, fields and fast packets of the NMEA 2000 bus.
pub mod Id
pub mod Field
pub mod Packet
pub mod Decode
pub mod Construct
