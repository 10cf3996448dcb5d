-- ===== src/Ai.antt =====
-- cpp/ai: the heuristics that choose a route, a bit rate and a node. They compute with `float`, which
-- is a parameter here.
pub mod Floats
pub mod Fixed
pub mod InsertionSort
pub mod Router
pub mod StreamEngine
pub mod LatencyPredictor
pub mod CloudOptimizer
mod Tests
