-- ===== src/Beej.antt =====
-- The mains of week0/beej: simple, chat, chat/udp and group_chat.
pub mod Opening
pub mod Mains
pub mod Exchange
