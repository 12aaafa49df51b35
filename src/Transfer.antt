-- ===== src/Transfer.antt =====
-- The way of a file through approach B, from sender.py over an honest broker to receiver.py.
pub mod Names
pub mod Keys
pub mod Promise
pub mod Store
pub mod Upload
pub mod Records
pub mod Download
pub mod Reading
pub mod Steps
pub mod Delivered
pub mod EndToEnd
