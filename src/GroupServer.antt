-- ===== src/GroupServer.antt =====
-- The server of the group chat, week0/beej/group_chat/server.c: a table of clients that the main
-- thread fills, and a thread for each client that passes its messages on to the others.
pub mod Table
pub mod Registry
pub mod Broadcast
pub mod Delivery
pub mod Threads
pub mod Main
pub mod Room
