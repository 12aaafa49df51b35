-- ===== src/Tls.antt =====
-- Approach A: a file streamed over mutually authenticated TLS, by sender.py and receiver.py of
-- approach-a-tls-mtls. The TLS channel itself is a socket that carries bytes in order.
pub mod Blocks
pub mod Sender
pub mod Wire
pub mod EndToEnd
pub mod Verdict
pub mod Sync
pub mod Endings
pub mod Claim
pub mod Safety
pub mod Interrupt
pub mod Start
pub mod Appended
pub mod Delivery
pub mod Receiver
pub mod Main
