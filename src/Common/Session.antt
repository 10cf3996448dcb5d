-- ===== src/Common/Session.antt =====
-- cpp/common/session_manager.cpp: the host's admission of clients, its packetizer, its sender thread and its
-- handler of secure datagrams, and the client's handshake and handler of datagrams.
pub mod Admission
pub mod Datagram
pub mod HostHandler
pub mod Packetizer
pub mod Handshake
pub mod SenderThread
pub mod Uplink
pub mod Routing
pub mod Feedback
