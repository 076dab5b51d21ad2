-- ===== src/Examples.antt =====
-- The theorems at concrete inputs, and tests of the definitions.
mod Sender
mod Chats
mod Group
mod Sockets
mod Scripts
mod Exercises
mod Hello
mod Threads
mod Rooms
mod Sessions
mod Timing
mod Admission
mod Pairs
mod Conversations
