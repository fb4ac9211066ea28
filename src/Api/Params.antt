-- ===== src/Api/Params.antt =====
-- src/voxtral-c-api.cpp, the parameter structures of a client: memory that begins with the size and the
-- API version that the client was compiled with, as bytes in little-endian order. A null pointer is
-- `none`. The size and the version that a normalized structure gets are left out: they are constants.
pub mod Local
pub mod RoundTrip
use voxtral_cpp.Prelude.{
  ℕ, zero, suc, ◌+◌, ◌-◌, ◌*◌, ◌/◌, ◌^◌, Bool, true, false, not, ◌&&◌, ◌||◌, Option, none, some,
  List, [], ◌∷◌, if◌then◌else◌, ltb, leb, ◌==◌, get_or, take, drop,
}

abbrev pub api_version_major : ℕ
api_version_major = 1

-- VOXTRAL_API_VERSION
abbrev pub api_version : ℕ
api_version = 1 * 2 ^ 24

abbrev pub versioned_header_size : ℕ
versioned_header_size = 4 * 2

abbrev pub max_versioned_struct_size : ℕ
max_versioned_struct_size = 1024 * 1024

-- An unsigned number of so many bytes at the start of some memory.
abbrev pub read_uint : ℕ → List ℕ → ℕ
read_uint zero mem = 0
read_uint (suc k) mem = get_or mem 0 0 + 256 * read_uint k (drop 1 mem)

pub record VersionedHeader : Type 0 where
  pub struct_size : ℕ
  pub version : ℕ

abbrev pub api_version_compatible : ℕ → Bool
api_version_compatible v = v / 2 ^ 24 == api_version_major

unfoldable pub read_header : Option (List ℕ) → Option VersionedHeader
read_header none = none
read_header (some mem) =
    let h : VersionedHeader = record {
      struct_size = read_uint 4 mem;
      version = read_uint 4 (drop 4 mem);
    } in
    if leb versioned_header_size (read_uint 4 mem)
      && leb (read_uint 4 mem) max_versioned_struct_size
      && api_version_compatible (read_uint 4 (drop 4 mem))
    then some h
    else none

abbrev pub field_available : ℕ → ℕ → ℕ → Bool
field_available struct_size offset field_size =
    leb offset struct_size && leb field_size (struct_size - offset)

-- `read_field_if_available`, with the value that is there before.
abbrev pub read_field : List ℕ → ℕ → ℕ → ℕ → ℕ → ℕ
read_field mem struct_size offset field_size before =
    if field_available struct_size offset field_size
    then read_uint field_size (drop offset mem)
    else before

pub record ModelParams : Type 0 where
  pub backend : ℕ
  pub log_level : ℕ
  pub flags : ℕ
  pub reserved : ℕ

-- `n_threads` by its 32 bits
pub record ContextConfig : Type 0 where
  pub n_threads : ℕ
  pub flags : ℕ

pub record AudioConfig : Type 0 where
  pub sample_rate : ℕ
  pub channels : ℕ
  pub format : ℕ
  pub reserved : ℕ

pub record StreamParams : Type 0 where
  pub audio : AudioConfig
  pub event_queue_capacity : ℕ
  pub flags : ℕ
  pub reserved : ℕ

abbrev pub model_default_params : ModelParams
model_default_params = record { backend = 1; log_level = 0; flags = 0; reserved = 0 }

abbrev pub context_default_config : ContextConfig
context_default_config = record { n_threads = 0; flags = 0 }

abbrev pub audio_default_config : AudioConfig
audio_default_config = record { sample_rate = 16000; channels = 1; format = 1; reserved = 0 }

abbrev pub event_queue_capacity_default : ℕ
event_queue_capacity_default = 4096

abbrev pub stream_default_params : StreamParams
stream_default_params = record {
  audio = audio_default_config;
  event_queue_capacity = event_queue_capacity_default;
  flags = 0;
  reserved = 0;
}

-- With the flag `ok` in front, as the other three below.
unfoldable pub normalize_model_params : Option (List ℕ) → Bool × ModelParams
unfolding read_header
normalize_model_params none = (true, model_default_params)
normalize_model_params (some mem) = elim (read_header (some mem)) [
  | none ↦ (false, model_default_params)
  | some header ↦
      let size = header.struct_size in
      let out = model_default_params in
      (
        true,
        record {
          backend = read_field mem size 8 4 out.backend;
          log_level = read_field mem size 12 4 out.log_level;
          flags = read_field mem size 16 4 out.flags;
          reserved = read_field mem size 20 4 out.reserved;
        },
      )
]

unfoldable pub normalize_context_config : Option (List ℕ) → Bool × ContextConfig
unfolding read_header
normalize_context_config none = (true, context_default_config)
normalize_context_config (some mem) = elim (read_header (some mem)) [
  | none ↦ (false, context_default_config)
  | some header ↦
      let size = header.struct_size in
      let out = context_default_config in
      (
        true,
        record {
          n_threads = read_field mem size 8 4 out.n_threads;
          flags = read_field mem size 12 4 out.flags;
        },
      )
]

-- The source does not set `ok` to true here: its only caller has.
unfoldable pub normalize_audio_config : List ℕ → Bool × AudioConfig
unfolding read_header
normalize_audio_config mem = elim (read_header (some mem)) [
  | none ↦ (false, audio_default_config)
  | some header ↦
      let size = header.struct_size in
      let out = audio_default_config in
      (
        true,
        record {
          sample_rate = read_field mem size 8 4 out.sample_rate;
          channels = read_field mem size 12 4 out.channels;
          format = read_field mem size 16 4 out.format;
          reserved = read_field mem size 20 4 out.reserved;
        },
      )
]

-- The fields, given the size in the header; `audio` lies at offset 8, and takes 24 bytes.
unfoldable pub stream_params_from : List ℕ → ℕ → Bool × StreamParams
unfolding normalize_audio_config
stream_params_from mem size =
    let out = stream_default_params in
    let (ok, audio) =
      if field_available size 8 24
      then normalize_audio_config (take 24 (drop 8 mem))
      else (true, out.audio) in
    (
      ok,
      record {
        audio = audio;
        event_queue_capacity = read_field mem size 32 4 out.event_queue_capacity;
        flags = read_field mem size 36 4 out.flags;
        reserved = read_field mem size 40 8 out.reserved;
      },
    )

unfoldable pub normalize_stream_params : Option (List ℕ) → Bool × StreamParams
unfolding stream_params_from
normalize_stream_params none = (false, stream_default_params)
normalize_stream_params (some mem) = elim (read_header (some mem)) [
  | none ↦ (false, stream_default_params)
  | some header ↦ stream_params_from mem header.struct_size
]
