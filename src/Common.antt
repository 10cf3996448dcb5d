-- ===== src/Common.antt =====
-- cpp/common: the data structures and services that host and client share.
pub mod FixedRing
pub mod LockFreeQueue
pub mod PacketPool
pub mod SafeQueue
pub mod ClockSync
pub mod Crypto
pub mod Protocol
pub mod Session
pub mod Stun
pub mod Config
pub mod Profiler
mod Tests
