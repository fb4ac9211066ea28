-- ===== src/KvCache.antt =====
-- src/voxtral.cpp: the addressing of the decoder's and the encoder's K/V rings.
pub mod Segments
pub mod Decoder
pub mod Encoder
