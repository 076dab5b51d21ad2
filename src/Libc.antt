-- ===== src/Libc.antt =====
-- The C library calls of week0/: text in `char` buffers, lines of standard input, decimal print.
-- A buffer is the list of its bytes. A byte is a number below 256.
pub mod Text
pub mod Input
pub mod Decimal
pub mod Port
