-- ===== src/Common/Session/SenderThread/Tests.antt =====
-- Runs and instances of the sender thread.
use remote_play.Prelude.{ℕ, ◌+◌, ◌≡◌, refl, [], ◌∷◌, some, length}
use remote_play.Common.Session.SenderThread.{
  OutgoingPacket, Sending, fill_batch, release_all, send_batch, send_round, send_rest,
}
use remote_play.Common.Session.SenderThread.Emptied.{IsEmptied, send_rest-empties}

abbrev outgoing : ℕ → OutgoingPacket
outgoing k = record { packet = k; bytes = k ∷ []; target_ip = []; target_port = 5005 }

abbrev two_wait : Sending
two_wait = record { send_queue = outgoing 3 ∷ outgoing 4 ∷ []; udp_pool = 1 ∷ []; sent = [] }

send_rest-two :
    send_rest 3 two_wait
    ≡ some (record {
      send_queue = [];
      udp_pool = 4 ∷ 3 ∷ 1 ∷ [];
      sent = (outgoing 3 ∷ outgoing 4 ∷ []) ∷ [];
    })
unfolding send_rest send_round send_batch fill_batch release_all
send_rest-two = refl

send_rest-empties_example : IsEmptied two_wait (send_rest (length two_wait.send_queue + 1) two_wait)
send_rest-empties_example = send_rest-empties two_wait
