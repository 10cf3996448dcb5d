-- ===== src/Lib.antt =====
-- remote_play: models and theorems of RemotePlay, a program that streams a desktop from a host to
-- its clients (cpp/ of the repository).
--
-- The parts and how they interact. The host captures and encodes frames (cpp/host), cuts them into
-- fragments, and sends each as an encrypted datagram (cpp/common/session_manager.cpp). The client's
-- network thread opens a datagram, tests its sequence number against a replay window, and gives a
-- video fragment to the receiver, which puts frames together, repairs a lost fragment from parity,
-- and asks for what is missing (cpp/client/receiver.cpp). Complete frames wait in the jitter buffer
-- (cpp/client/jitter_buffer.cpp) until they are shown. Queues, rings and packet pools connect the
-- threads, and a clock synchronisation aligns the two machines' clocks (cpp/common). From what clients
-- report the heuristics of cpp/ai choose the path, the bit rate and a node.
--
-- Which file models which part:
--   Prelude, Bits              shared names, Boolean tests, lists over native numbers, 64-bit
--                              integers (Prelude.Int), bits and the exclusive or of bytes.
--   Common.FixedRing           cpp/common/fixed_ring_buffer.hpp: insert, get.
--   Common.LockFreeQueue       cpp/common/lock_free_queue.hpp: push, pop, empty, size; Refine
--                              compares them with a bounded queue, also where the counters wrap.
--                              Interleave has a producer and a consumer, a shared access at a time;
--                              Fifo is about every interleaving.
--   Common.SafeQueue           cpp/common/safe_queue.hpp: push, pop, wait_and_pop, stop, size, each a
--                              step under the mutex; Order is about any sequence of them.
--   Common.PacketPool          cpp/common/packet_pool.hpp: acquire, release; packets are identities.
--   Common.ClockSync           cpp/common/clock_sync.hpp: ProcessResponse, GetHostTime and
--                              GetClientTime, with the wrapping 64-bit arithmetic written out.
--   Common.Crypto              cpp/common/crypto_manager.cpp in a build without libsodium.
--   Common.Protocol            cpp/common/protocol.hpp: the packet types and every packed struct,
--                              with the bytes that are written and read (Layout, Input, Handshake;
--                              Wire has the round trips).
--   Common.Session.Admission   cpp/common/session_manager.cpp, runHost: the handshake's reservation,
--                              the thread that initialises a client, the timeout. Limit has the
--                              holds of the mutexes as a step relation.
--   Common.Session.Packetizer  cpp/common/session_manager.cpp, runHost: the loop that cuts encoded
--                              packets into fragments, encrypts them and queues them. Halt is about
--                              what it queues, Envelope about what was sealed, Sealed about a fragment
--                              at the client, and Slices, Arrivals, Opening and Rebuilt about a frame
--                              at the client's receiver.
--   Common.Session.SenderThread
--                              cpp/common/session_manager.cpp, runHost: the thread that sends what is
--                              queued in batches. Emptied is about its end.
--   Common.Session.Uplink      cpp/common/session_manager.cpp, runClient, the main loop: the requests for
--                              missing fragments and for the host's time. Answered has the host's answer.
--   Common.Session.HostHandler cpp/common/session_manager.cpp, runHost: what a secure datagram that
--                              decrypts makes the host do. Founded and Increasing are about it.
--   Common.Session.Datagram    cpp/common/session_manager.cpp, runClient, the network thread: relayed
--                              and secure datagrams, the handshake's answer, and the dispatch to the
--                              receiver, the audio decoder and the clock. Counted is about a round of
--                              the loop, Ending about how the loop ends, Fresh about datagrams that
--                              come again.
--   Common.Session.Handshake   cpp/common/session_manager.cpp, runClient: the loop that sends the
--                              handshake again. Backoff and Bounded are about how often and how long.
--   Common.Session.Routing     cpp/common/session_manager.cpp, runClient: attemptHandshake, and the
--                              choice of the path in the main loop. Probed and Switched are about them.
--   Common.Session.Feedback    cpp/common/session_manager.cpp, runHost: a client's feedback, from the
--                              predictor to the encoder. Shared is about who is affected.
--   Common.Profiler            cpp/common/profiler.hpp: the samples, the counters and the statistics;
--                              Latest is about what a buffer holds.
--   Common.Config              cpp/common/config.cpp: load, save, checkHotReload, and the getters and
--                              setters of strings and Booleans; Text: what load does to a line; Stored
--                              and Typed: the file and the order of the map.
--   Common.Stun                cpp/common/network_manager.cpp: the loops over the attributes of a
--                              STUN response in GetPublicEndpoint and GetPublicEndpointParallel.
--   Client.Frame               FrameData of cpp/client/receiver.hpp.
--   Client.Receiver            cpp/client/receiver.cpp. Window: ValidateSequence; Fragment: what
--                              ProcessPacket and TryRecover do to one frame; State: the receiver and
--                              its frame pool; Process: ProcessPacket, TryRecover and ProcessFEC on
--                              the whole receiver; Reading: GetNextFrame, GetPendingNACKs,
--                              FindLatestAvailableKeyframe and ForceAdvanceTo. Of the modules below
--                              them Window.Replay compares the window with a filter, Fragment.Recovery
--                              and Fragment.Rebuild are about a recovery, Counting about the count of
--                              fragments, Untouched about what a packet leaves alone, Reading.Order
--                              about the order of delivery, and Owners with its children about who
--                              has each frame.
--   Client.JitterBuffer        cpp/client/jitter_buffer.cpp: PushFrame, PopFrame and Reset; Emptied is
--                              about what Reset clears.
--   Client.Playback            cpp/common/session_manager.cpp, runClient, the main loop: the detection
--                              of gaps, the recovery at a keyframe and a round of the loop that gives
--                              complete frames to the jitter buffer. Recovered is about the recovery.
--   Host.EncoderManager        cpp/host/encoder_manager.cpp: the table of SetState; Session: the
--                              operations; States, Reach, Kept, Table and Lasting: what sequences of
--                              calls reach. Adaptive is UpdatePerformanceMetrics as a whole, with the
--                              stream engine, and Adapted is about its decisions.
--   Ai.Floats                  the interface for `float`; Fixed is an instance of it, and
--                              InsertionSort one of the sort that cpp/ai and the profiler take.
--   Ai.Router                  cpp/ai/intelligent_router.cpp; Best is about the route chosen.
--   Ai.StreamEngine            cpp/ai/stream_engine.cpp; Paced is about sequences of calls.
--   Ai.LatencyPredictor        cpp/ai/latency_predictor.cpp; LastOf and Recorded are about what it keeps, Bounds
--                              about the forecasts.
--   Ai.CloudOptimizer          cpp/ai/cloud_optimizer.cpp; Packed is about the node chosen.
--
-- State and operations. A class is a record of its fields and each of its functions one definition
-- with the source's name in lower case; what a function changes is in the record that it answers. A
-- mutex makes a function, or the section it covers, one step. `FrameData*` is an address of a heap,
-- since the ring and the pool share frames; packets of pools are identities. Times are arguments:
-- each is a reading of the clock. Where the client's main loop takes the receiver's mutex several
-- times in a row, the receiver is an argument for each time. A write or read outside of memory, or
-- through a null pointer, is a result of its own (`none`, `crash`), never left out.
--
-- Parameters. Encryption, decryption and the derivation of keys in the threads that send and receive
-- (libsodium in a secure build), whether the host's pool has a packet for a retransmission, the class
-- EncoderHW (FFmpeg), the platform's `float` and `double`, std::sort, and the bytes of a buffer that
-- nothing was written to. Where a property needs the order of floating-point numbers it assumes a strict
-- weak order, which holds where none is a NaN (Ai.Floats.IsStrictWeak), and of std::sort that it permutes
-- and orders (Ai.Router.Sorts). Of the arithmetic it assumes a value where it says so. Of the other
-- parameters nothing is assumed.
--
-- Bounds and fuel. Integers of the source are native numbers with their wrap-around written out.
-- Loops over a counter are structural. The overflow loop of the jitter buffer runs on as much fuel
-- as the frames it counts, since each round takes one out; the client's loop over a datagram on one
-- more than its bytes, since a round that goes on unwraps a relay header; the loops over STUN
-- attributes on the datagram's length, since an attribute has four bytes or more. The theorems on
-- them state that this is enough. The loop of the handshake runs on a list of what its rounds
-- read. Of the loop over GetNextFrame a round is modelled: the network thread may complete further
-- frames between its rounds, so that no number of rounds is a bound.
--
-- Not modelled: capture, encoding, decoding, rendering, audio devices and sockets, which are calls of
-- the system and of libraries; the branches of the cipher that call libsodium; the conversions of
-- numbers in the settings (std::stoi and its kin); the prediction of the mouse in cpp/ai; logging and
-- the report of the profiler; the user interfaces; vendored code.
pub mod Prelude
pub mod Bits
pub mod Common
pub mod Client
pub mod Host
pub mod Ai
