-- ===== src/Common/Session/Feedback.antt =====
-- SessionManager::runHost, the branch for PacketType::Feedback of the handler of secure datagrams: what a
-- client reports goes to the predictor, which is the session manager's and not the client's, and the
-- forecast goes to the client's encoder. A client is its place in the list of clients; the readings of
-- the clock come with the packet.
pub mod Shared
mod Tests
use remote_play.Prelude.{ℕ, Option, none, some, ◌==◌, if◌then◌else◌, List, [], ◌∷◌}
use remote_play.Prelude.Int.{pos, negsuc}
use remote_play.Ai.Floats.{Floats}
use remote_play.Ai.LatencyPredictor.{NetworkMetrics, LatencyPredictor, record_metrics, predict}
use remote_play.Ai.StreamEngine.{LatencyPrediction}
use remote_play.Host.EncoderManager.{EncoderHw, EncoderManager}
use remote_play.Host.EncoderManager.Adaptive.{Adaptive, Report, adapt_to_report}

-- The fields of Protocol::FeedbackHeader that are used, the client that sent it, and the clock.
pub record Feedback (float : Type 0) : Type 0 where
  pub client : ℕ
  pub loss_rate : float
  pub rtt_ms : ℕ
  pub avg_decode_time_ms : float
  pub request_keyframe : ℕ
  pub target_bitrate_kbps : ℕ
  pub received_at : ℕ
  pub analyzed_at : ℕ
  pub now : ℕ

module _ (R : EncoderHw) (F : Floats) where
  -- m_latencyPredictor, and the encoder manager of each client.
  pub record Encoders : Type 0 where
    pub latency_predictor : LatencyPredictor F.Float
    pub encoder_of : ℕ → Adaptive R.Encoder F.Float

  abbrev pub metrics_of : Feedback F.Float → NetworkMetrics F.Float
  metrics_of fh = record {
    rtt_ms = F.of_int (pos fh.rtt_ms);
    jitter_ms = F.of_int (pos 0);
    packet_loss_rate = fh.loss_rate;
    timestamp = fh.received_at;
  }

  -- RequestKeyframe
  abbrev force : Option R.Encoder → Option R.Encoder
  force none = none
  force (some e) = some (R.force_keyframe e)

  unfoldable pub request_keyframe : EncoderManager R.Encoder → EncoderManager R.Encoder
  request_keyframe m = record m { encoder = force m.encoder }

  -- The arguments of UpdatePerformanceMetrics.
  abbrev pub report_of : Feedback F.Float → LatencyPrediction F.Float → Report F.Float
  report_of fh prediction = record {
    frame_drop_rate = fh.loss_rate;
    avg_encode_time_ms = F.of_int (negsuc 0);
    client_decode_time_ms = fh.avg_decode_time_ms;
    target_bitrate_kbps = pos fh.target_bitrate_kbps;
    ai_prediction = some prediction;
    analyzed_at = fh.analyzed_at;
    now = fh.now;
  }

  unfoldable pub react :
      Adaptive R.Encoder F.Float
      → Feedback F.Float
      → LatencyPrediction F.Float
      → Adaptive R.Encoder F.Float
  react a fh prediction =
      let a' = adapt_to_report R F a (report_of fh prediction) in
      if fh.request_keyframe == 0 then a' else record a' { manager = request_keyframe a'.manager }

  unfoldable pub on_feedback : Encoders → Feedback F.Float → Encoders
  on_feedback s fh =
      let predictor = record_metrics F s.latency_predictor (metrics_of fh) in
      record {
        latency_predictor = predictor;
        encoder_of = λ c.
            if c == fh.client
            then react (s.encoder_of c) fh (predict F predictor 200)
            else s.encoder_of c;
      }

  unfoldable pub on_feedbacks : Encoders → List (Feedback F.Float) → Encoders
  on_feedbacks s [] = s
  on_feedbacks s (fh ∷ fhs) = on_feedbacks (on_feedback s fh) fhs
