-- ===== src/Tests.antt =====
-- The theorems at concrete inputs, and runs of the models.
mod Utilities
mod Buffers
mod Settings
mod Requests
mod Sockets
mod Threads
mod Peers
mod Lists
mod Events
