-- ===== src/Client/Receiver.antt =====
-- cpp/client/receiver.cpp and receiver.hpp: frames are put together from fragments, repaired by
-- forward error correction, and handed on in order.
pub mod Window
pub mod Fragment
pub mod State
pub mod Process
pub mod Reading
pub mod Counting
pub mod Untouched
pub mod Owners
