-- ===== src/Common/Session/HostHandler/Tests.antt =====
-- Runs and instances of the host's handler.
use remote_play.Prelude.{ℕ, ◌-◌, ◌^◌, ◌≡◌, refl, List, [], ◌∷◌, ◌++◌, true, false, arith, replicate}
use remote_play.Common.Protocol.{read_input_header}
use remote_play.Common.Protocol.Input.{InputType}
use remote_play.Common.Session.HostHandler.{
  Peer, CachedPacket, inject, dispatch, inject_first, receive,
}
use remote_play.Common.Session.HostHandler.Founded.{AllFounded, dispatch-AllFounded}
use remote_play.Common.Session.HostHandler.Increasing.{
  Opened, handled, IsIncreasing, handled-IsIncreasing,
}

abbrev no_packet : CachedPacket
no_packet = record { bytes = []; frame_id = 0; fragment_index = 0; occupied = false }

abbrev peer : Peer
peer = record {
  rx_key = replicate 32 0xaa;
  last_activity = 0;
  last_seq = 0;
  send_sequence_number = 0;
  packet_cache = λ slot. no_packet;
}

-- A press of a key: the input's header of ten bytes and the event of three.
abbrev key_press : List ℕ
key_press = 2 ∷ 1 ∷ replicate 8 0 ++ 65 ∷ 0 ∷ 1 ∷ []

dispatch-AllFounded_example : AllFounded peer key_press 13 (dispatch peer key_press 13 true 500).1
dispatch-AllFounded_example = dispatch-AllFounded peer key_press 13 true 500

pressed : (dispatch peer key_press 13 true 500).1 ≡ inject InputType.keyboard (65 ∷ 0 ∷ 1 ∷ []) ∷ []
unfolding dispatch inject_first read_input_header
pressed = refl

-- Cut short, the event is not injected.
cut_short : (dispatch peer key_press 12 true 500).1 ≡ []
unfolding dispatch inject_first read_input_header
cut_short = refl

abbrev numbered : ℕ → Opened
numbered n = (n, key_press, 13)

abbrev arrivals : List Opened
arrivals = numbered 3 ∷ numbered 4 ∷ numbered 3 ∷ numbered 9 ∷ numbered 7 ∷ []

handled-IsIncreasing_example : IsIncreasing 0 (handled peer arrivals true 500)
handled-IsIncreasing_example =
    handled-IsIncreasing peer arrivals true 500
      (omega arith, (omega arith, (omega arith, (omega arith, (omega arith, tt)))))

handled-arrivals : handled peer arrivals true 500 ≡ 3 ∷ 4 ∷ 9 ∷ []
unfolding handled receive dispatch inject_first read_input_header
handled-arrivals = refl

-- After the largest number every older one is handled again.
wrapped : handled peer (numbered (2 ^ 64 - 1) ∷ numbered 3 ∷ []) true 500 ≡ (2 ^ 64 - 1) ∷ 3 ∷ []
unfolding handled receive dispatch inject_first read_input_header
wrapped = refl
