-- ===== src/TrackerCpp.antt =====
-- The earlier tracker in C++ under tracker_cpp/.
pub mod CircularBuffer
pub mod FileMgr
pub mod Text
pub mod Criterion
pub mod Peer
pub mod EventManager
pub mod HashTable
pub mod Lists
