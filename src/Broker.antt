-- ===== src/Broker.antt =====
-- approach-b-broker-envelope/broker.py: blob keys, the storage directory, and the commands.
pub mod Key
pub mod Storage
pub mod Command
pub mod Confined
pub mod Blobs
pub mod Replies
pub mod Termination
pub mod Legal
pub mod Every
pub mod Listed
pub mod Race
pub mod Writers
