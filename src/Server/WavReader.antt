-- ===== src/Server/WavReader.antt =====
-- server/wav-reader.cpp: the parser of an uploaded WAV file, and of raw PCM. A body is a list of
-- bytes. Sizes fit: a size that a header gives has 32 bits, and a size of the body 64.
pub mod Bounds
pub mod Trails
use Prim.Native.String.{String}
use voxtral_cpp.Prelude.{
  ℕ, zero, suc, ◌+◌, ◌-◌, ◌*◌, ◌/◌, ◌%◌, Bool, true, false, not, ◌&&◌, ◌||◌, Option, none, some,
  List, [], ◌∷◌, if◌then◌else◌, ltb, leb, ◌==◌, length, get_or, take, drop,
}

-- `AudioParseResult`: the samples, or why there are none. The duration follows from the samples.
pub data AudioParseResult : Type 0 where
  audio : List ℕ → AudioParseResult
  failure : String → String → AudioParseResult

module _ (body : List ℕ) where
  abbrev pub byte_at : ℕ → ℕ
  byte_at i = get_or body i 0

  unfoldable pub read_u16le : ℕ → ℕ
  read_u16le i = byte_at i + byte_at (i + 1) * 256

  unfoldable pub read_u32le : ℕ → ℕ
  read_u32le i =
      byte_at i + byte_at (i + 1) * 256 + byte_at (i + 2) * 65536 + byte_at (i + 3) * 16777216

  -- `memcmp` with four characters
  abbrev pub tag_at : ℕ → ℕ → ℕ → ℕ → ℕ → Bool
  tag_at i a b c d =
      byte_at i == a && byte_at (i + 1) == b && byte_at (i + 2) == c && byte_at (i + 3) == d

-- The samples, by their bits.
unfoldable pub samples_from : List ℕ → List ℕ
samples_from (lo ∷ hi ∷ rest) = (lo + hi * 256) ∷ samples_from rest
samples_from _ = []

unfoldable pub make_audio : List ℕ → AudioParseResult
make_audio bytes =
    if length bytes == 0 || not (length bytes % 2 == 0)
    then AudioParseResult.failure "invalid_argument"
        "PCM audio must contain a non-zero even number of bytes."
    else AudioParseResult.audio (samples_from bytes)

-- The variables that the loop over the chunks sets; `none` for a chunk not seen.
pub record Fmt : Type 0 where
  pub audio_format : ℕ
  pub channels : ℕ
  pub sample_rate : ℕ
  pub byte_rate : ℕ
  pub block_align : ℕ
  pub bits_per_sample : ℕ

pub record Chunks : Type 0 where
  pub fmt : Option Fmt
  -- the offset and the size
  pub data_chunk : Option (ℕ × ℕ)

-- How the loop ends; `out_of_rounds` says that its rounds did not suffice.
pub data Scan : Type 0 where
  scanned : Chunks → Scan
  invalid : String → Scan
  out_of_rounds : Scan

-- A round of the loop: an invalid file, or the next offset.
pub data Walk : Type 0 where
  stop : String → Walk
  on : ℕ → Chunks → Walk

abbrev pub is_none : {A : Type 0} → Option A → Bool
is_none none = true
is_none (some x) = false

module _ (body : List ℕ) where
  unfoldable pub read_fmt : ℕ → Fmt
  read_fmt offset = record {
    audio_format = read_u16le body offset;
    channels = read_u16le body (offset + 2);
    sample_rate = read_u32le body (offset + 4);
    byte_rate = read_u32le body (offset + 8);
    block_align = read_u16le body (offset + 12);
    bits_per_sample = read_u16le body (offset + 14);
  }

  abbrev pub is_fmt : ℕ → Chunks → Bool
  is_fmt header c = tag_at body header 102 109 116 32 && is_none c.fmt

  -- The chunk with this header, whose content starts behind it.
  unfoldable pub note_chunk : ℕ → ℕ → Chunks → Chunks
  note_chunk header size c =
      if is_fmt header c
      then record c { fmt = some (read_fmt (header + 8)) }
      else if tag_at body header 100 97 116 97 && is_none c.data_chunk
      then record c { data_chunk = some (header + 8, size) }
      else c

  -- The body of the `while` loop.
  pub walk : ℕ → ℕ → Chunks → Walk
  unfolding note_chunk
  walk riff_end offset c =
      let size = read_u32le body (offset + 4) in
      let next = offset + 8 + size in
      let c1 = note_chunk offset size c in
      if ltb (riff_end - offset) 8
      then Walk.stop "The WAV chunk header is truncated."
      else if ltb (riff_end - (offset + 8)) size
      then Walk.stop "The WAV chunk size is invalid."
      else if is_fmt offset c && ltb size 16
      then Walk.stop "The WAV fmt chunk is too small."
      else if size % 2 == 0
      then Walk.on next c1
      else if next == riff_end
      then Walk.stop "The WAV chunk padding byte is missing."
      else Walk.on (next + 1) c1

  -- The loop from an offset on, with the given number of rounds.
  pub scan : ℕ → ℕ → ℕ → Chunks → Scan
  unfolding walk
  scan zero riff_end offset c = elim (ltb offset riff_end) [
    | true ↦ Scan.out_of_rounds
    | false ↦ Scan.scanned c
  ]
  scan (suc f) riff_end offset c = elim (ltb offset riff_end) [
    | false ↦ Scan.scanned c
    | true ↦ elim (walk riff_end offset c) [
      | stop why ↦ Scan.invalid why
      | on next c1 ↦ scan f riff_end next c1
    ]
  ]

  unfoldable pub check_fmt : Fmt → ℕ × ℕ → AudioParseResult
  unfolding make_audio
  check_fmt fmt (start, size) =
      if not (fmt.audio_format == 1)
      then AudioParseResult.failure "unsupported_audio_format"
          "Only uncompressed integer PCM WAV is supported."
      else if not (fmt.channels == 1)
          || not (fmt.sample_rate == 16000)
          || not (fmt.bits_per_sample == 16)
          || not (fmt.block_align == 2)
          || not (fmt.byte_rate == 32000)
      then AudioParseResult.failure "unsupported_audio_format"
          "WAV audio must be signed PCM16 little-endian, mono, 16000 Hz."
      else make_audio (take size (drop start body))

  pub check_chunks : Option Fmt → Option (ℕ × ℕ) → AudioParseResult
  unfolding check_fmt
  check_chunks (some fmt) (some range) = check_fmt fmt range
  check_chunks (some fmt) none =
      AudioParseResult.failure "invalid_argument" "The WAV file must contain fmt and data chunks."
  check_chunks none range =
      AudioParseResult.failure "invalid_argument" "The WAV file must contain fmt and data chunks."

  pub conclude : Scan → AudioParseResult
  unfolding check_chunks
  conclude (Scan.invalid why) = AudioParseResult.failure "invalid_argument" why
  conclude Scan.out_of_rounds = AudioParseResult.failure "internal_error" ""
  conclude (Scan.scanned c) = check_chunks c.fmt c.data_chunk

  unfoldable pub parse_pcm16_wav : AudioParseResult
  unfolding conclude scan
  parse_pcm16_wav =
      let riff_end = read_u32le body 4 + 8 in
      if ltb (length body) 12 || not (tag_at body 0 82 73 70 70) || not (tag_at body 8 87 65 86 69)
      then AudioParseResult.failure "invalid_argument"
          "The request body is not a valid RIFF/WAVE file."
      else if ltb riff_end 12 || ltb (length body) riff_end
      then AudioParseResult.failure "invalid_argument" "The WAV RIFF size is invalid."
      else conclude (scan riff_end riff_end 12 (record { fmt = none; data_chunk = none }))

-- `parse_raw_pcm16`; the flags say that the three header texts are the expected ones.
unfoldable pub parse_raw_pcm16 : List ℕ → Bool → Bool → Bool → AudioParseResult
unfolding make_audio
parse_raw_pcm16 body format sample_rate channels =
    if not format || not sample_rate || not channels
    then AudioParseResult.failure "unsupported_audio_format"
        "Raw audio requires pcm_s16le, 16000 Hz, and one channel."
    else make_audio body
