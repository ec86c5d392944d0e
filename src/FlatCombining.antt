-- ===== src/FlatCombining.antt =====
-- `FlatCombiningQueue` of include/fcqueue.hpp: one slot for each thread, a lock, and a sequential
-- queue that the holder of the lock works on for everybody.
pub mod Slot
pub mod System
