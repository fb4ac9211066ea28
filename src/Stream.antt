-- ===== src/Stream.antt =====
-- The streaming runtime of src/voxtral-stream*.cpp: its state, event queue, decoder scheduler and
-- lifecycle.
pub mod State
pub mod Events
pub mod Decoder
pub mod Frontend
pub mod Lifecycle
pub mod Eligibility
