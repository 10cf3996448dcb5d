-- ===== src/Host.antt =====
-- cpp/host: the sending side of a stream.
pub mod EncoderManager
