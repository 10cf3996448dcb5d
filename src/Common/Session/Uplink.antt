-- ===== src/Common/Session/Uplink.antt =====
-- SessionManager::runClient, the main loop: the requests for missing fragments and for the host's time
-- that the client sends in secure datagrams. The cipher is a parameter.
pub mod Answered
mod Tests
use remote_play.Prelude.{
  ℕ, ◌+◌, List, [], ◌∷◌, ◌++◌, Option, none, some, ◌==◌, if◌then◌else◌, length, u64,
}
use remote_play.Common.Protocol.{
  PacketType, packet_code, RetransmitRequestPacket, write_retransmit_request_packet, TimeSyncPacket,
  write_time_sync_packet,
}
use remote_play.Common.Session.Packetizer.{sealed}

-- What the loop reads and writes of runClient's variables; `sent` are the datagrams to the host.
pub record Uplink : Type 0 where
  pub session_id : ℕ
  pub tx_key : List ℕ
  pub send_sequence_number : ℕ
  pub sent : List (List ℕ)

abbrev pub request_of : ℕ × ℕ → RetransmitRequestPacket
request_of (frame_id, fragment_index) = record {
  type = packet_code PacketType.retransmit_request;
  frame_id = frame_id;
  fragment_index = fragment_index;
}

-- Nothing is sent where the cipher fails; the number is used up.
unfoldable pub send_sealed : Uplink → ℕ → ℕ → Option (List ℕ × List ℕ) → Uplink
send_sealed u number size none = u
send_sealed u number size (some secured) = record u {
  sent = u.sent ++ sealed u.session_id number size secured ∷ [];
}

module _ (encrypt : List ℕ → ℕ → List ℕ → Option (List ℕ × List ℕ)) where
  unfoldable pub send_secure : Uplink → List ℕ → Uplink
  send_secure u plain =
      let number = u.send_sequence_number in
      send_sealed (record u { send_sequence_number = u64 (number + 1) }) number (length plain)
        (encrypt plain number u.tx_key)

  -- The body of the loop over the pending NACKs.
  unfoldable pub request_fragment : Uplink → ℕ × ℕ → Uplink
  request_fragment u nack = send_secure u (write_retransmit_request_packet (request_of nack))

  unfoldable pub request_fragments : Uplink → List (ℕ × ℕ) → Uplink
  request_fragments u [] = u
  request_fragments u (nack ∷ nacks) = request_fragments (request_fragment u nack) nacks

  unfoldable pub request_time : Uplink → ℕ → Uplink
  request_time u now =
      if u.session_id == 0
      then u
      else send_secure u (
          write_time_sync_packet
            (record { type = packet_code PacketType.time_sync; client_send_timestamp = now }))
