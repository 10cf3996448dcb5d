-- ===== src/Common/Protocol/Handshake.antt =====
-- cpp/common/protocol.hpp: the structs that hold arrays of bytes.
use remote_play.Prelude.{ℕ, ◌+◌, List, [], ◌∷◌, ◌++◌, get_or, take, drop}
use remote_play.Common.Protocol.Layout.{encode, decode, size_of}

-- A struct of numbers, then an array of `n` bytes, then numbers again.
abbrev pub write_around : List ℕ → List ℕ → List ℕ → List ℕ → List ℕ → List ℕ
write_around ws vs bytes ws' vs' = encode ws vs ++ (bytes ++ encode ws' vs')

abbrev pub array_at : ℕ → ℕ → List ℕ → List ℕ
array_at offset n bytes = take n (drop offset bytes)

pub record SecureHeader : Type 0 where
  pub type : ℕ
  pub session_id : ℕ
  pub sequence_number : ℕ
  pub encrypted_size : ℕ
  pub auth_tag : List ℕ  -- 16 bytes

abbrev pub secure_header_widths : List ℕ
secure_header_widths = 1 ∷ 8 ∷ 8 ∷ 2 ∷ []

abbrev pub secure_header_fields : SecureHeader → List ℕ
secure_header_fields h = h.type ∷ h.session_id ∷ h.sequence_number ∷ h.encrypted_size ∷ []

-- sizeof(Protocol::SecureHeader)
abbrev pub secure_header_size : ℕ
secure_header_size = size_of secure_header_widths + 16

unfoldable pub write_secure_header : SecureHeader → List ℕ
write_secure_header h = encode secure_header_widths (secure_header_fields h) ++ h.auth_tag

abbrev pub secure_header_of : List ℕ → List ℕ → SecureHeader
secure_header_of fs tag = record {
  type = get_or fs 0 0;
  session_id = get_or fs 1 0;
  sequence_number = get_or fs 2 0;
  encrypted_size = get_or fs 3 0;
  auth_tag = tag;
}

unfoldable pub read_secure_header : List ℕ → SecureHeader
read_secure_header bytes =
    secure_header_of (decode secure_header_widths bytes) (array_at 19 16 bytes)

pub record HandshakeSecurePacket : Type 0 where
  pub type : ℕ
  pub client_public_key : List ℕ  -- 32 bytes
  pub username : List ℕ  -- 32 bytes

unfoldable pub write_handshake_secure_packet : HandshakeSecurePacket → List ℕ
write_handshake_secure_packet h = h.type ∷ (h.client_public_key ++ h.username)

unfoldable pub read_handshake_secure_packet : List ℕ → HandshakeSecurePacket
read_handshake_secure_packet bytes = record {
  type = get_or bytes 0 0;
  client_public_key = array_at 1 32 bytes;
  username = array_at 33 32 bytes;
}

pub record HandshakeSecureResponsePacket : Type 0 where
  pub type : ℕ
  pub host_public_key : List ℕ  -- 32 bytes
  pub approved : ℕ
  pub session_id : ℕ

unfoldable pub write_handshake_secure_response_packet : HandshakeSecureResponsePacket → List ℕ
write_handshake_secure_response_packet h =
    write_around (1 ∷ []) (h.type ∷ []) h.host_public_key (1 ∷ 8 ∷ [])
      (h.approved ∷ h.session_id ∷ [])

unfoldable pub read_handshake_secure_response_packet : List ℕ → HandshakeSecureResponsePacket
read_handshake_secure_response_packet bytes =
    let fs = decode (1 ∷ 8 ∷ []) (drop 33 bytes) in
    record {
      type = get_or bytes 0 0;
      host_public_key = array_at 1 32 bytes;
      approved = get_or fs 0 0;
      session_id = get_or fs 1 0;
    }

pub record CandidatePacket : Type 0 where
  pub type : ℕ
  pub ip : List ℕ  -- 64 bytes
  pub port : ℕ
  pub priority : ℕ

unfoldable pub write_candidate_packet : CandidatePacket → List ℕ
write_candidate_packet h =
    write_around (1 ∷ []) (h.type ∷ []) h.ip (2 ∷ 1 ∷ []) (h.port ∷ h.priority ∷ [])

unfoldable pub read_candidate_packet : List ℕ → CandidatePacket
read_candidate_packet bytes =
    let fs = decode (2 ∷ 1 ∷ []) (drop 65 bytes) in
    record {
      type = get_or bytes 0 0;
      ip = array_at 1 64 bytes;
      port = get_or fs 0 0;
      priority = get_or fs 1 0;
    }

pub record RelayHeader : Type 0 where
  pub type : ℕ
  pub session_id : ℕ
  pub target_uuid : List ℕ  -- 16 bytes
  pub data_size : ℕ

unfoldable pub write_relay_header : RelayHeader → List ℕ
write_relay_header h =
    write_around (1 ∷ 8 ∷ []) (h.type ∷ h.session_id ∷ []) h.target_uuid (2 ∷ []) (h.data_size ∷ [])

unfoldable pub read_relay_header : List ℕ → RelayHeader
read_relay_header bytes =
    let fs = decode (1 ∷ 8 ∷ []) bytes in
    record {
      type = get_or fs 0 0;
      session_id = get_or fs 1 0;
      target_uuid = array_at 9 16 bytes;
      data_size = get_or (decode (2 ∷ []) (drop 25 bytes)) 0 0;
    }
