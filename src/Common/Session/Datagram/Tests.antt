-- ===== src/Common/Session/Datagram/Tests.antt =====
-- Runs and instances of the client's network thread, with the stand-in cipher.
use remote_play.Prelude.{ℕ, ◌≡◌, refl, List, [], ◌∷◌, ◌++◌, true, false, Option, none, replicate}
use remote_play.Bits.{test_bit, set_bit, clear_bit}
use remote_play.Bits.Xor.{xor}
use remote_play.Common.Crypto
use remote_play.Common.ClockSync
use remote_play.Common.Protocol.{
  PacketType, packet_code, read_time_sync_response_packet, write_time_sync_response_packet,
}
use remote_play.Common.Protocol.Handshake.{
  write_secure_header, read_secure_header, read_relay_header,
}
use remote_play.Client.Receiver.State
use remote_play.Client.Receiver.Window
use remote_play.Client.Receiver.Window.Replay.{Refines, init-Refines}
use remote_play.Common.Session.Datagram.{
  Session, Turn, stop, again, spin, crash, open_secure, receive_decrypted, receive, deliver,
  stop_or_crash, turn, follow, unwrap, run, finished, spinning, unfinished,
}
use remote_play.Common.Session.Datagram.Fresh.{open_secure-twice}

abbrev key : List ℕ
key = replicate 32 0xaa

abbrev connected : Session
connected = record {
  session_id = 99;
  rx_key = key;
  tx_key = replicate 32 0x55;
  receiver = State.init 4;
  clock_sync = ClockSync.init;
  last_frame_id = 0;
  handshake_approved = true;
  handshake_rejected = false;
  current_host = (1, 5000);
  audio = [];
}

abbrev times : List ℕ
times = write_time_sync_response_packet (record {
  type = packet_code PacketType.time_sync;
  client_send_timestamp = 100;
  host_receive_timestamp = 5000;
  host_send_timestamp = 5000;
})

abbrev datagram : List ℕ
datagram =
    write_secure_header (record {
      type = packet_code PacketType.secure;
      session_id = 99;
      sequence_number = 5;
      encrypted_size = 25;
      auth_tag = (Crypto.encrypt times 5 key).1;
    })
    ++ times

abbrev no_keys : List ℕ → Option (List ℕ × List ℕ)
no_keys public_key = none

abbrev zeros : ℕ → ℕ
zeros k = 0

abbrev session_of : Turn → Session
session_of (stop s) = s
session_of (again buf len) = connected
session_of spin = connected
session_of crash = connected

abbrev synchronized : Session
synchronized = session_of (open_secure Crypto.decrypt no_keys connected datagram zeros 300)

opened_once : open_secure Crypto.decrypt no_keys connected datagram zeros 300 ≡ stop synchronized
unfolding open_secure receive_decrypted receive deliver stop_or_crash read_secure_header
    write_secure_header write_time_sync_response_packet read_time_sync_response_packet
    Crypto.encrypt Crypto.decrypt Crypto.checksum xor State.init Window.init
    Window.validate_sequence Window.advance Window.check_bit Window.clear_from Window.clear_at
    Window.set_at Window.bit_at test_bit set_bit clear_bit
opened_once = refl

connected-Refines : Refines connected.receiver.window (record { newest = 0; taken = [] })
unfolding State.init
connected-Refines = init-Refines

open_secure-twice_example :
    open_secure Crypto.decrypt no_keys synchronized datagram zeros 900 ≡ stop synchronized
open_secure-twice_example =
    open_secure-twice Crypto.decrypt no_keys connected synchronized
      (record { newest = 0; taken = [] }) datagram zeros zeros 300 900 connected-Refines opened_once

-- The datagram in a relay's envelope.
abbrev relayed : List ℕ
relayed = 14 ∷ 99 ∷ replicate 25 0 ++ datagram

-- A size field beyond the buffer: the loop goes round for ever.
abbrev oversized : List ℕ
oversized = write_secure_header (record {
  type = packet_code PacketType.secure;
  session_id = 99;
  sequence_number = 5;
  encrypted_size = 2049;
  auth_tag = replicate 16 0;
})

oversized-spinning :
    run Crypto.decrypt no_keys 36 connected oversized 35 zeros (1, 5000) 300 ≡ spinning
unfolding run turn follow open_secure read_secure_header write_secure_header
oversized-spinning = refl

-- The relayed datagram ends in two rounds, and one is not enough.
relayed_rounds :
    (run Crypto.decrypt no_keys 2 connected relayed 87 zeros (1, 5000) 300 ≡ finished synchronized)
    × (run Crypto.decrypt no_keys 1 connected relayed 87 zeros (1, 5000) 300 ≡ unfinished)
unfolding run turn follow unwrap open_secure receive_decrypted receive deliver stop_or_crash
    read_secure_header read_relay_header write_secure_header write_time_sync_response_packet
    read_time_sync_response_packet Crypto.encrypt Crypto.decrypt Crypto.checksum xor State.init
    Window.init Window.validate_sequence Window.advance Window.check_bit Window.clear_from
    Window.clear_at Window.set_at Window.bit_at test_bit set_bit clear_bit
relayed_rounds = (refl, refl)
