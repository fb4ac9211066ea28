-- ===== src/Server.antt =====
-- server/: the exclusive use of the GPU, the queue between a connection and its worker, and the
-- queue of outgoing messages, and the parser of uploaded audio.
pub mod Auth
pub mod Config
pub mod GpuLease
pub mod PcmQueue
pub mod Outbound
pub mod WavReader
