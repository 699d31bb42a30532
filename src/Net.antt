-- ===== src/Net.antt =====
-- The parts of framework/core/src/net: packets, streams and the codecs between them.
pub mod Packet
pub mod Stream
pub mod Codec
pub mod Connection
pub mod Manager
