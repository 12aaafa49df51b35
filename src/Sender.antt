-- ===== src/Sender.antt =====
-- approach-b-broker-envelope/sender.py: the state of a transfer, the chunks, and the upload.
pub mod State
pub mod Sealing
pub mod Chunks
pub mod Count
pub mod Send
pub mod Sealed
pub mod Agreed
pub mod Kept
