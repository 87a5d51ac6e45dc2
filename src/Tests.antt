-- ===== src/Tests.antt =====
-- The theorems at concrete inputs, over a small kernel whose calls can be computed.
pub mod Toy
mod Buffers
mod Loops
mod Connections
mod Servers
mod Rounds
mod Starting
mod Events
mod Texts
mod Threads
