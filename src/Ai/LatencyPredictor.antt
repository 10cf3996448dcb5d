-- ===== src/Ai/LatencyPredictor.antt =====
-- cpp/ai/latency_predictor.cpp: histories of what was measured, moving averages of it, and a forecast.
-- The front of a deque is the head of its list.
pub mod LastOf
pub mod Recorded
pub mod Bounds
use remote_play.Prelude.{
  ℕ, suc, ◌+◌, ◌-◌, List, [], ◌∷◌, ◌++◌, ltb, ◌==◌, if◌then◌else◌, length, drop,
}
use remote_play.Prelude.Int.{pos}
use remote_play.Ai.Floats.{Floats, max, clamp}
use remote_play.Ai.StreamEngine.{LatencyPrediction}

pub record NetworkMetrics (float : Type 0) : Type 0 where
  pub rtt_ms : float
  pub jitter_ms : float
  pub packet_loss_rate : float
  pub timestamp : ℕ

pub record LatencyPredictor (float : Type 0) : Type 0 where
  pub history_size : ℕ
  pub rtt_history : List float
  pub jitter_history : List float
  pub loss_history : List float
  pub timestamp_history : List ℕ
  pub rtt_ewma : float
  pub jitter_ewma : float
  pub loss_ewma : float

abbrev pub push_back {ℓ} : {A : Type ℓ} → List A → A → List A
push_back xs x = xs ++ x ∷ []

abbrev pub pop_front {ℓ} : {A : Type ℓ} → List A → List A
pop_front [] = []
pop_front (x ∷ xs) = xs

module _ (F : Floats) where
  unfoldable pub init : ℕ → LatencyPredictor F.Float
  init history_size = record {
    history_size = history_size;
    rtt_history = [];
    jitter_history = [];
    loss_history = [];
    timestamp_history = [];
    rtt_ewma = F.decimal 0 0;
    jitter_ewma = F.decimal 0 0;
    loss_ewma = F.decimal 0 0;
  }

  abbrev pub with_metrics :
      LatencyPredictor F.Float → NetworkMetrics F.Float → LatencyPredictor F.Float
  with_metrics p m = record p {
    rtt_history = push_back p.rtt_history m.rtt_ms;
    jitter_history = push_back p.jitter_history m.jitter_ms;
    loss_history = push_back p.loss_history m.packet_loss_rate;
    timestamp_history = push_back p.timestamp_history m.timestamp;
  }

  -- The size of the first history decides for all four.
  abbrev pub trimmed : LatencyPredictor F.Float → LatencyPredictor F.Float
  trimmed p =
      if ltb p.history_size (length p.rtt_history)
      then record p {
        rtt_history = pop_front p.rtt_history;
        jitter_history = pop_front p.jitter_history;
        loss_history = pop_front p.loss_history;
        timestamp_history = pop_front p.timestamp_history;
      }
      else p

  -- alpha * value + (1.0f - alpha) * average
  abbrev pub mix : F.Float → F.Float → F.Float → F.Float
  mix alpha value average =
      F.plus (F.times alpha value) (F.times (F.minus (F.decimal 1 0) alpha) average)

  abbrev pub alpha_fast : F.Float
  alpha_fast = F.decimal 3 1

  abbrev pub alpha_slow : F.Float
  alpha_slow = F.decimal 1 1

  abbrev pub averaged : LatencyPredictor F.Float → NetworkMetrics F.Float → LatencyPredictor F.Float
  averaged p m =
      if length p.rtt_history == 1
      then record p {
        rtt_ewma = m.rtt_ms;
        jitter_ewma = m.jitter_ms;
        loss_ewma = m.packet_loss_rate;
      }
      else record p {
        rtt_ewma = mix alpha_fast m.rtt_ms p.rtt_ewma;
        jitter_ewma = mix alpha_fast m.jitter_ms p.jitter_ewma;
        loss_ewma = mix alpha_slow m.packet_loss_rate p.loss_ewma;
      }

  unfoldable pub record_metrics :
      LatencyPredictor F.Float → NetworkMetrics F.Float → LatencyPredictor F.Float
  record_metrics p m = averaged (trimmed (with_metrics p m)) m

  -- The sums of CalculateTrend.
  pub record Sums : Type 0 where
    pub sum_x : F.Float
    pub sum_y : F.Float
    pub sum_xy : F.Float
    pub sum_xx : F.Float

  unfoldable pub add_points : ℕ → List F.Float → Sums → Sums
  add_points i [] s = s
  add_points i (y ∷ ys) s =
      let x = F.of_int (pos i) in
      add_points (i + 1) ys (record {
        sum_x = F.plus s.sum_x x;
        sum_y = F.plus s.sum_y y;
        sum_xy = F.plus s.sum_xy (F.times x y);
        sum_xx = F.plus s.sum_xx (F.times x x);
      })

  abbrev pub slope : Sums → F.Float
  slope s =
      let n = F.of_int (pos 5) in
      F.divide (F.minus (F.times n s.sum_xy) (F.times s.sum_x s.sum_y))
        (F.minus (F.times n s.sum_xx) (F.times s.sum_x s.sum_x))

  abbrev pub no_sums : Sums
  no_sums = record {
    sum_x = F.decimal 0 0;
    sum_y = F.decimal 0 0;
    sum_xy = F.decimal 0 0;
    sum_xx = F.decimal 0 0;
  }

  -- CalculateTrend: the slope of the last five.
  unfoldable pub calculate_trend : List F.Float → F.Float
  calculate_trend history =
      if ltb (length history) 5
      then F.decimal 0 0
      else slope (add_points 0 (drop (length history - 5) history) no_sums)

  -- The average, moved on along the trend.
  abbrev pub extrapolate : F.Float → List F.Float → ℕ → F.Float
  extrapolate average history lookahead_ms =
      F.plus average (
        F.times (calculate_trend history)
          (F.divide (F.of_int (pos lookahead_ms)) (F.decimal 100 0)))

  unfoldable pub predict : LatencyPredictor F.Float → ℕ → LatencyPrediction F.Float
  predict p lookahead_ms =
      if length p.rtt_history == 0
      then record {
        predicted_rtt_ms = F.decimal 0 0;
        predicted_jitter_ms = F.decimal 0 0;
        predicted_loss_rate = F.decimal 0 0;
        confidence_score = F.decimal 0 0;
      }
      else record {
        predicted_rtt_ms =
            max F (F.decimal 0 0) (extrapolate p.rtt_ewma p.rtt_history lookahead_ms);
        predicted_jitter_ms =
            max F (F.decimal 0 0) (extrapolate p.jitter_ewma p.jitter_history lookahead_ms);
        predicted_loss_rate =
            clamp F (extrapolate p.loss_ewma p.loss_history lookahead_ms) (F.decimal 0 0)
              (F.decimal 1 0);
        confidence_score =
            max F (F.decimal 0 0)
              (F.minus (F.decimal 1 0) (F.divide (F.of_int (pos lookahead_ms)) (F.decimal 1000 0)));
      }
