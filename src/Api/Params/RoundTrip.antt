-- ===== src/Api/Params/RoundTrip.antt =====
-- What a client writes is what the library reads.
use voxtral_cpp.Prelude.{
  ℕ, zero, suc, ◌/◌, ◌%◌, ◌^◌, ◌<◌, ◌≡◌, true, some, List, [], ◌∷◌, ◌++◌, arith,
}
use voxtral_cpp.Api.Params.{
  api_version, read_uint, AudioConfig, StreamParams, normalize_stream_params,
}

-- A number as so many bytes.
abbrev pub uint_bytes : ℕ → ℕ → List ℕ
uint_bytes zero n = []
uint_bytes (suc k) n = (n % 256) ∷ uint_bytes k (n / 256)

-- A structure as a client lays it out that was compiled with this header.
abbrev pub audio_config_bytes : AudioConfig → List ℕ
audio_config_bytes a =
    uint_bytes 4 24
    ++ (uint_bytes 4 api_version
        ++ (uint_bytes 4 a.sample_rate
            ++ (uint_bytes 4 a.channels ++ (uint_bytes 4 a.format ++ uint_bytes 4 a.reserved))))

abbrev pub stream_params_bytes : StreamParams → List ℕ
stream_params_bytes s =
    uint_bytes 4 48
    ++ (uint_bytes 4 api_version
        ++ (audio_config_bytes s.audio
            ++ (uint_bytes 4 s.event_queue_capacity
                ++ (uint_bytes 4 s.flags ++ uint_bytes 8 s.reserved))))

uint4 : (n : ℕ) → n < 2 ^ 32 → read_uint 4 (uint_bytes 4 n) ≡ n
uint4 n h = omega arith

uint8 : (n : ℕ) → n < 2 ^ 64 → read_uint 8 (uint_bytes 8 n) ≡ n
uint8 n h = omega arith

-- The fields fit their types.
pub record Fits (s : StreamParams) : Type 0 where
  pub sample_rate : s.audio.sample_rate < 2 ^ 32
  pub channels : s.audio.channels < 2 ^ 32
  pub format : s.audio.format < 2 ^ 32
  pub audio_reserved : s.audio.reserved < 2 ^ 32
  pub capacity : s.event_queue_capacity < 2 ^ 32
  pub flags : s.flags < 2 ^ 32
  pub reserved : s.reserved < 2 ^ 64

-- Parameters that a client lays out in memory, with anything behind them, are read back as they are.
pub normalize_stream_params-stream_params_bytes :
    (s : StreamParams) (rest : List ℕ)
    → Fits s
    → normalize_stream_params (some (stream_params_bytes s ++ rest)) ≡ (true, s)
unfolding normalize_stream_params
normalize_stream_params-stream_params_bytes s rest h i = (
  true,
  record {
    audio = record {
      sample_rate = uint4 s.audio.sample_rate h.sample_rate i;
      channels = uint4 s.audio.channels h.channels i;
      format = uint4 s.audio.format h.format i;
      reserved = uint4 s.audio.reserved h.audio_reserved i;
    };
    event_queue_capacity = uint4 s.event_queue_capacity h.capacity i;
    flags = uint4 s.flags h.flags i;
    reserved = uint8 s.reserved h.reserved i;
  },
)
