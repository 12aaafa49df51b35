-- ===== src/Tests.antt =====
-- The theorems at concrete inputs, and runs of the code.
pub mod Channel
pub mod Blobs
pub mod Inbox
pub mod Outbox
pub mod Retry
pub mod Through
pub mod Wire
pub mod Provision
pub mod Issued
pub mod Threads
pub mod Crowd
pub mod Crash
pub mod Programs
pub mod Puts
