-- ===== src/Common/Profiler/Tests.antt =====
-- Runs and instances of the profiler.
use remote_play.Prelude.{suc, ◌≡◌, List, [], ◌∷◌, ◌++◌, length}
use remote_play.Prelude.Int.{ℤ, pos}
use remote_play.Ai.Fixed.{fixed}
use remote_play.Ai.InsertionSort.{insertion_sort}
use remote_play.Common.Profiler.{make_buffer, calculate_stats}
use remote_play.Common.Profiler.Latest.{Holds, record_samples, record_samples-Holds}

abbrev times : List ℤ
times = pos 3000 ∷ pos 1000 ∷ pos 2000 ∷ []

record_samples-Holds_example :
    let b =
      record_samples fixed
        (make_buffer fixed (λ i. pos 0) (pos 9000000))
        (times ++ pos 5000 ∷ []) in
    Holds fixed b (times ++ pos 5000 ∷ [])
    × ((calculate_stats fixed insertion_sort b).total_count ≡ suc (length times))
    × ((calculate_stats fixed insertion_sort b).latest ≡ pos 5000)
record_samples-Holds_example =
    record_samples-Holds fixed insertion_sort (λ i. pos 0) (pos 9000000) (pos 5000) times
