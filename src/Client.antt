-- ===== src/Client.antt =====
-- cpp/client: the receiving side of a stream.
pub mod Frame
pub mod JitterBuffer
mod Tests
pub mod Receiver
pub mod Playback
