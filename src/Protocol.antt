-- ===== src/Protocol.antt =====
-- _protocol.py: validators, encoders and decoders, with no input or output.
pub mod Validate
pub mod Fence
pub mod Encode
pub mod Status
pub mod Decode
pub mod Stats
