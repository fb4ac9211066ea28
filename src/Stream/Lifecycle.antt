-- ===== src/Stream/Lifecycle.antt =====
-- src/voxtral-stream.cpp: the life cycle of a stream.
pub mod Create
pub mod Feed
pub mod Finish
pub mod Control
pub mod Transfer
pub mod Runs
