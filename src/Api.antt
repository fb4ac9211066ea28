-- ===== src/Api.antt =====
-- src/voxtral-c-api.cpp, the C interface over the stream.
pub mod Utf8
pub mod Params
pub mod Calls
