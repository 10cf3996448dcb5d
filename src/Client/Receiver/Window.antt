-- ===== src/Client/Receiver/Window.antt =====
-- Receiver::ValidateSequence: the sliding replay window of 1024 bits in sixteen 64-bit words.
pub mod Bitmap
pub mod Replay
use remote_play.Prelude.{
  ℕ, zero, suc, ◌+◌, ◌-◌, ◌/◌, ◌%◌, ◌^◌, ◌≤◌, ◌<◌, ◌≡◌, List, [], ◌∷◌, Bool, true, false, ltb, leb,
  if◌then◌else◌, get_or, set, replicate, length,
}
use remote_play.Bits.{test_bit, set_bit, clear_bit}

abbrev pub window_size : ℕ
window_size = 1024

-- m_maxSequenceReceived and m_sequenceWindow
pub record Window : Type 0 where
  pub max_sequence_received : ℕ
  pub sequence_window : List ℕ

unfoldable pub init : Window
init = record { max_sequence_received = 0; sequence_window = replicate (window_size / 64) 0 }

abbrev pub word_idx : ℕ → ℕ
word_idx seq = (seq / 64) % (window_size / 64)

-- m_sequenceWindow[wordIdx] & (1ULL << (seq % 64))
unfoldable pub bit_at : List ℕ → ℕ → Bool
bit_at words seq = test_bit (seq % 64) (get_or words (word_idx seq) 0)

unfoldable pub set_at : List ℕ → ℕ → List ℕ
set_at words seq = set words (word_idx seq) (set_bit (seq % 64) (get_or words (word_idx seq) 0))

unfoldable pub clear_at : List ℕ → ℕ → List ℕ
clear_at words seq = set words (word_idx seq) (clear_bit (seq % 64) (get_or words (word_idx seq) 0))

-- The loop over `i < diff`: `target` is m_maxSequenceReceived + i + 1, which stays at most `seq` and
-- so never wraps.
unfoldable pub clear_from : List ℕ → ℕ → ℕ → List ℕ
clear_from words target zero = words
clear_from words target (suc rounds) = clear_from (clear_at words target) (target + 1) rounds

-- The branch `seq > m_maxSequenceReceived`.
unfoldable pub advance : Window → ℕ → Window
advance w seq =
    let diff = seq - w.max_sequence_received in
    record {
      max_sequence_received = seq;
      sequence_window =
          if leb window_size diff
          then replicate (length w.sequence_window) 0
          else clear_from w.sequence_window (w.max_sequence_received + 1) diff;
    }

-- The test and the write that end the function.
unfoldable pub check_bit : Window → ℕ → Bool × Window
check_bit w seq =
    if bit_at w.sequence_window seq
    then (false, w)
    else (true, record w { sequence_window = set_at w.sequence_window seq })

unfoldable pub validate_sequence : Window → ℕ → Bool × Window
validate_sequence w seq =
    if ltb w.max_sequence_received seq
    then check_bit (advance w seq) seq
    else if leb window_size (w.max_sequence_received - seq)
    then (false, w)
    else check_bit w seq

-- The calls of the network thread, one for each datagram that decrypts; the answers in order.
unfoldable pub validate_all : Window → List ℕ → List Bool
validate_all w [] = []
validate_all w (s ∷ ss) = let (b, w') = validate_sequence w s in b ∷ validate_all w' ss
