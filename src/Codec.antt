-- ===== src/Codec.antt =====
-- `protocol_codec.py`: the wire form of Python values.
pub mod Value
pub mod Encode
pub mod Decode
pub mod Wire
pub mod Laws
mod Tests
