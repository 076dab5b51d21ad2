-- ===== src/Lab.antt =====
-- The exercises of week0/q1 to week0/q3, one connection each: the common opening of their servers
-- and clients, the greeting (q1), the date (q2) and the chat of two processes (q3).
pub mod Opening
pub mod FailStop
pub mod Greeting
pub mod Exchange
pub mod Runs
pub mod Date
pub mod Civil
pub mod Calendar
pub mod Datagram
pub mod Pair
