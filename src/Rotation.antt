-- ===== src/Rotation.antt =====
-- src/rotation.rs: when to rotate (`Limits`), the configuration (`Config`), and the archive (`Backend`) on
-- a store of files (`Files`) and an ordered set of suffixes (`Suffixes`), and the threads (`Threads`).
pub mod Limits
pub mod Threads
pub mod Files
pub mod Suffixes
pub mod Backend
pub mod Config
pub mod Tests
