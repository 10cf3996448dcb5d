-- ===== src/Common/Tests.antt =====
-- Runs and instances of cpp/common.

use mathlib.Core.List.{Perm}
use remote_play.Prelude.{
  ℕ, ◌+◌, ◌-◌, ◌/◌, ◌*◌, ◌^◌, ◌≡◌, refl, List, [], ◌∷◌, ◌++◌, true, false, arith,
}
use remote_play.Prelude.Int.{pos, negsuc, ◌≤ℤ◌, ◌+ℤ◌}
use remote_play.Common.LockFreeQueue
use remote_play.Common.LockFreeQueue.Refine.{contents, IsValid}
use remote_play.Common.PacketPool
use remote_play.Common.SafeQueue
use remote_play.Common.SafeQueue.Order.{outputs-append-final}
use remote_play.Common.ClockSync
use remote_play.Common.ClockSync.Accuracy.{Probe, measured, process_response-accurate}

-- Two items, the second behind the wrap of the counters.
abbrev wrapped : LockFreeQueue.Queue ℕ
wrapped = record { buffer = λ slot. slot * 10; head = 2 ^ 64 - 1; tail = 1 }

wrapped-IsValid : IsValid 4 wrapped
wrapped-IsValid = record { head_word = omega arith; tail_word = omega arith; fits = omega arith }

contents-wrapped : contents 4 wrapped ≡ 30 ∷ 0 ∷ []
contents-wrapped = refl

abbrev requests : List PacketPool.Op
requests = PacketPool.ask ∷ PacketPool.ask ∷ PacketPool.give_back 1 ∷ PacketPool.ask ∷ []

abbrev two_packets : PacketPool.System
two_packets = record { pool = PacketPool.init 2; held = [] }

run-perm_example :
    Perm (PacketPool.packets (PacketPool.run two_packets requests)) (PacketPool.packets two_packets)
run-perm_example = PacketPool.run-perm two_packets requests

abbrev calls : List (SafeQueue.Call ℕ)
calls =
    SafeQueue.push_call 4
    ∷ SafeQueue.wait_call
    ∷ SafeQueue.wait_call
    ∷ SafeQueue.push_call 5
    ∷ SafeQueue.stop_call
    ∷ []

outputs-append-final_example :
    SafeQueue.outputs SafeQueue.empty calls ++ (SafeQueue.final SafeQueue.empty calls).items
    ≡ SafeQueue.empty.items ++ SafeQueue.inputs calls
outputs-append-final_example = outputs-append-final calls SafeQueue.empty

abbrev filled : SafeQueue.Queue ℕ
filled = record { items = 4 ∷ 5 ∷ []; stopped = false }

-- A host whose clock is three seconds behind, across the wrap of the client's clock.
abbrev probe : Probe
probe = record { t0 = 2 ^ 64 - 400; out = 700; rest = 20; back = 500; ahead = negsuc 2999999 }

process_response-accurate_example :
    let m = measured ClockSync.init probe in
    (m.rtt ≡ 1200)
    × (m.clock_offset ≤ℤ probe.ahead +ℤ pos ((m.rtt + 1) / 2))
    × (probe.ahead ≤ℤ m.clock_offset +ℤ pos ((m.rtt + 1) / 2))
    × (◌≡◌ {A = ℕ} 700 500 → m.clock_offset ≡ probe.ahead)
process_response-accurate_example =
    process_response-accurate probe
      (record {
        out_small = omega arith;
        rest_small = omega arith;
        back_small = omega arith;
        ahead_small = omega arith;
        behind_small = omega arith;
      })
      ClockSync.init

abbrev behind : ClockSync.ClockSync
behind = record { clock_offset = negsuc 2999999; rtt = 1200; synchronized = true }
