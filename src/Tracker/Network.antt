-- ===== src/Tracker/Network.antt =====
-- tracker/network.c: the slots that `poll` watches, and what the network thread does with them.
pub mod Slots
pub mod Clean
pub mod Ready
pub mod Settled
pub mod Serving
pub mod Requests
pub mod Holding
pub mod Polled
pub mod Incoming
pub mod Holders
pub mod Threads
pub mod Race
pub mod Round
pub mod Connect
pub mod Read
