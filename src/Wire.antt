-- ===== src/Wire.antt =====
-- The wire protocol of server/wire.py: RC4, framing, protobuf fields and the packing of RPCs.
-- Bytes are numbers below 256. A reader's pair (buf, p) is the list of the bytes from p on.
pub mod Rc4
pub mod Varint
pub mod Proto
pub mod Zigzag
pub mod Rpc
pub mod Frame
mod Tests
