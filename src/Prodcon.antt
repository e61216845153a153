-- ===== src/Prodcon.antt =====
-- A2/prodcon.c: a producer that reads commands and puts work on a queue, and consumers that take it
-- from there.
pub mod Input
pub mod Message
pub mod Threads
pub mod Summary
pub mod Startup
pub mod System
mod Examples
