-- ===== src/Tests.antt =====
-- Concrete runs of the kernel's operations: a small machine, and the theorems applied to it.
pub mod Machine
pub mod Tasks
pub mod Locks
pub mod Memory
pub mod Strings
pub mod Screens
pub mod Files
pub mod Mails
pub mod Network
pub mod Numbers
