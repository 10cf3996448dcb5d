-- ===== src/Common/Profiler.antt =====
-- cpp/common/profiler.hpp: the buffers of samples and the counters. A map is the function from a name to
-- what it finds; `double` and std::sort are parameters, as in cpp/ai. The report on std::cout is left
-- out, and the mutexes make each operation one step.
pub mod Latest
mod Tests
use remote_play.Prelude.{
  ℕ, zero, suc, ◌+◌, ◌-◌, ◌*◌, ◌/◌, ◌%◌, min, List, [], ◌∷◌, Bool, Option, none, some, ltb, ◌==◌,
  if◌then◌else◌, get_or,
}
use remote_play.Prelude.Int.{pos, pos_part}
use remote_play.Common.Config.{equals}
use remote_play.Ai.Floats.{Floats}
use remote_play.Ai.Router.{Sort}

-- SampleBuffer; the array has MAX_SAMPLES places, 1000.
pub record SampleBuffer (double : Type 0) : Type 0 where
  pub samples : ℕ → double
  pub count : ℕ
  pub min : double
  pub max : double
  pub sum : double

pub record Stats (double : Type 0) : Type 0 where
  pub avg : double
  pub min : double
  pub max : double
  pub p99 : double
  pub latest : double
  pub total_count : ℕ

module _ (F : Floats) where
  -- A buffer as it is made; what the array holds at first is not set.
  unfoldable pub make_buffer : (ℕ → F.Float) → F.Float → SampleBuffer F.Float
  make_buffer unset e18 = record {
    samples = unset;
    count = 0;
    min = e18;
    max = F.decimal 0 0;
    sum = F.decimal 0 0;
  }

  abbrev pub put_sample : (ℕ → F.Float) → ℕ → F.Float → ℕ → F.Float
  put_sample samples i val = λ j. if j == i then val else samples j

  -- SampleBuffer::record
  unfoldable pub record_sample : SampleBuffer F.Float → F.Float → SampleBuffer F.Float
  record_sample b val = record {
    samples =
        if ltb b.count 1000
        then put_sample b.samples b.count val
        else put_sample b.samples (b.count % 1000) val;
    count = b.count + 1;
    min = if F.less val b.min then val else b.min;
    max = if F.less b.max val then val else b.max;
    sum = F.plus b.sum val;
  }

  -- The first `n` samples.
  abbrev first_samples : (ℕ → F.Float) → ℕ → ℕ → List F.Float
  first_samples samples i zero = []
  first_samples samples i (suc n) = samples i ∷ first_samples samples (i + 1) n

  abbrev pub no_stats : Stats F.Float
  no_stats = record {
    avg = F.decimal 0 0;
    min = F.decimal 0 0;
    max = F.decimal 0 0;
    p99 = F.decimal 0 0;
    latest = F.decimal 0 0;
    total_count = 0;
  }

  unfoldable pub calculate_stats : Sort F.Float → SampleBuffer F.Float → Stats F.Float
  calculate_stats sort b =
      let n = min b.count 1000 in
      let sorted = sort F.less (first_samples b.samples 0 n) in
      if n == 0 then no_stats else record {
        latest = b.samples ((b.count - 1) % 1000);
        total_count = b.count;
        min = b.min;
        max = b.max;
        avg = F.divide b.sum (F.of_int (pos b.count));
        p99 =
            get_or sorted (pos_part (F.to_int (F.times (F.of_int (pos n)) (F.decimal 99 2))))
              (F.decimal 0 0);
      }

  pub record Profiler : Type 0 where
    pub time_samples : List ℕ → Option (SampleBuffer F.Float)
    pub counters : List ℕ → Option ℕ
    pub value_samples : List ℕ → Option (SampleBuffer F.Float)

  abbrev pub store_at {ℓ} : {A : Type ℓ} → (List ℕ → Option A) → List ℕ → A → List ℕ → Option A
  store_at map name x other = if equals other name then some x else map other

  -- getBuffer: the buffer of the name, made where there is none.
  unfoldable pub get_buffer :
      (List ℕ → Option (SampleBuffer F.Float))
      → SampleBuffer F.Float
      → List ℕ
      → SampleBuffer F.Float
  get_buffer map made name = elim (map name) [ none ↦ made | some b ↦ b ]

  module _ (made : SampleBuffer F.Float) where
    unfoldable pub record_time : Profiler → List ℕ → F.Float → Profiler
    record_time p name duration_us = record p {
      time_samples =
          store_at p.time_samples name
            (record_sample (get_buffer p.time_samples made name) duration_us);
    }

    unfoldable pub record_value : Profiler → List ℕ → F.Float → Profiler
    record_value p name value = record p {
      value_samples =
          store_at p.value_samples name
            (record_sample (get_buffer p.value_samples made name) value);
    }

  unfoldable pub record_counter : Profiler → List ℕ → ℕ → Profiler
  record_counter p name count = record p {
    counters =
        store_at p.counters name (elim (p.counters name) [ none ↦ count | some old ↦ old + count ]);
  }

  -- getStats: a time of the name, or else a value.
  unfoldable pub get_stats : Sort F.Float → Profiler → List ℕ → Stats F.Float
  get_stats sort p name = elim (p.time_samples name) [
    | some b ↦ calculate_stats sort b
    | none ↦ elim (p.value_samples name) [ some b ↦ calculate_stats sort b | none ↦ no_stats ]
  ]

  unfoldable pub reset : Profiler → Profiler
  reset p = record {
    time_samples = λ name. none;
    counters = λ name. none;
    value_samples = λ name. none;
  }
