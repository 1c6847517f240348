-- ===== src/Net.antt =====
-- source/networkmessage.cpp and .h: the packet buffer, its cipher and its frames.
pub mod Memory
pub mod Xtea
pub mod Message
pub mod Cipher
pub mod Socket
mod Examples
