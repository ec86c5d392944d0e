-- ===== src/Fairness.antt =====
-- src/FairnessLogger.cpp and include/FairnessLogger.hpp: overtake metrics of a log of operations.
pub mod Log
pub mod Fenwick
pub mod Sort
pub mod Sweep
pub mod Metrics
