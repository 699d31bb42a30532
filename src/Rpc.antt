-- ===== src/Rpc.antt =====
-- The message format of remote calls, framework/core/src/net/rpc: packing values into bytes and
-- unpacking them again.
pub mod Tag
pub mod Packer
pub mod Unpacker
pub mod Cursor
pub mod Unsigned
pub mod UnsignedTrip
pub mod Signed
pub mod SignedTrip
pub mod Text
mod Tests
