-- ===== src/Chat.antt =====
-- The two-way chat of week0/beej/chat/chat.c, its UDP version week0/beej/chat/udp/chat.c and the
-- client side of the group chat, week0/beej/group_chat/chat.c: one thread that receives, one that
-- sends, and a main thread that waits for either to end.
pub mod Threads
pub mod Programs
pub mod Invariant
pub mod Watch
pub mod Display
pub mod Datagram
pub mod Conversation
pub mod Ending
