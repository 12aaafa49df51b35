-- ===== src/Receiver.antt =====
-- approach-b-broker-envelope/receiver.py: the manifest, the chunks, and the promotion of the file.
pub mod State
pub mod Manifest
pub mod Opening
pub mod Chunks
pub mod Receive
pub mod Authentic
pub mod Loop
pub mod Verified
pub mod Run
pub mod Stuck
