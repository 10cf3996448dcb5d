-- ===== src/Common/Session/Uplink/Tests.antt =====
-- Runs and instances of what the client sends.
use remote_play.Prelude.{ℕ, ◌≡◌, refl, List, [], ◌∷◌, true, false, arith, replicate, length}
use remote_play.Common.Crypto.{encrypt, decrypt}
use remote_play.Common.Session.Packetizer.{sealed}
use remote_play.Common.Session.HostHandler.{Peer, CachedPacket, resend, stop, open_secure}
use remote_play.Common.Session.Uplink.{
  Uplink, request_fragment, request_fragments, request_time, send_secure, send_sealed,
}
use remote_play.Common.Session.Uplink.Answered.{request, stand_in, request_fragment-looked_up}

abbrev key : List ℕ
key = replicate 32 0x55

abbrev uplink : Uplink
uplink = record { session_id = 99; tx_key = key; send_sequence_number = 12; sent = [] }

abbrev cached : CachedPacket
cached = record { bytes = 1 ∷ 2 ∷ []; frame_id = 5; fragment_index = 1; occupied = true }

abbrev peer : Peer
peer = record {
  rx_key = key;
  last_activity = 0;
  last_seq = 12;
  send_sequence_number = 0;
  packet_cache = λ slot. cached;
}

-- Two fragments and the time: the numbers of three datagrams are used up.
three_sent :
    let u = request_time stand_in (request_fragments stand_in uplink ((5, 1) ∷ (5, 2) ∷ [])) 1000 in
    (u.send_sequence_number ≡ 15) × (length u.sent ≡ 3)
unfolding request_time request_fragments request_fragment send_secure send_sealed
three_sent = (refl, refl)

-- The host's cache as it starts.
abbrev no_packet : CachedPacket
no_packet = record { bytes = []; frame_id = 0; fragment_index = 0; occupied = false }

abbrev forgetful : Peer
forgetful = record peer { packet_cache = λ slot. no_packet }

abbrev asked : List ℕ
asked = sealed 99 12 (length (request 5 1)) (encrypt (request 5 1) 12 key)

request_fragment-looked_up_example :
    ((request_fragment stand_in uplink (5, 1)).sent ≡ asked ∷ [])
    × (open_secure decrypt forgetful asked true 7
        ≡ stop (record forgetful { last_activity = 7; last_seq = 13 }, []))
request_fragment-looked_up_example =
    request_fragment-looked_up uplink forgetful 5 1 7 refl (omega arith) (omega arith) (omega arith)
      (omega arith) (omega arith)

request_fragment-hit :
    open_secure decrypt peer asked true 7
    ≡ stop (record peer { last_activity = 7; last_seq = 13 }, resend (1 ∷ 2 ∷ []) ∷ [])
request_fragment-hit =
    (request_fragment-looked_up uplink peer 5 1 7 refl (omega arith) (omega arith) (omega arith)
      (omega arith) (omega arith)).1
