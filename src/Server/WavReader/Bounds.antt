-- ===== src/Server/WavReader/Bounds.antt =====
-- What the parser gives: a refusal, or the samples of the data chunk.
use Prim.Native.String.{String}
use voxtral_cpp.Prelude.{
  ℕ, ◌+◌, ◌≤◌, ◌<◌, ◌≡◌, ◌%◌, refl, subst, false, ◌⊎◌, inl, inr, not, ◌||◌, Option, none, some,
  List, [], ◌∷◌, arith, if-cases, ltb, ◌==◌, length, take, drop, length-take, length-drop, ◌*◌, ◌∙◌,
}
use voxtral_cpp.Server.WavReader.{
  AudioParseResult, samples_from, make_audio, check_fmt, check_chunks, conclude, parse_pcm16_wav,
  Chunks, Scan, Fmt, read_fmt, tag_at, read_u32le, scan,
}
use voxtral_cpp.Server.WavReader.Trails.{
  InBounds, Trail, first_tagged, is_fmt_chunk, is_data_chunk, FmtNoted, DataNoted, Walking, Scanned,
  scan-Scanned,
}

length-samples_from : (xs : List ℕ) → length xs % 2 ≡ 0 → length (samples_from xs) * 2 ≡ length xs
unfolding samples_from
length-samples_from [] e = refl
length-samples_from (x ∷ []) e = absurd (omega (arith, e))
length-samples_from (lo ∷ hi ∷ rest) e = omega (arith, length-samples_from rest (omega (arith, e)))

module _ (body : List ℕ) where
  -- PCM16, mono, 16000 Hz.
  abbrev pub IsPcm16 : Fmt → Type 0
  IsPcm16 fmt =
      (fmt.audio_format ≡ 1)
      × (fmt.channels ≡ 1)
      × (fmt.sample_rate ≡ 16000)
      × (fmt.byte_rate ≡ 32000)
      × (fmt.block_align ≡ 2)
      × (fmt.bits_per_sample ≡ 16)

  -- The samples of these bytes of the body.
  abbrev SamplesAt : ℕ → ℕ → List ℕ → Type 0
  SamplesAt start size samples =
      (start + size ≤ length body)
      × (0 < size)
      × (samples ≡ samples_from (take size (drop start body)))
      × (length samples * 2 ≡ size)

  abbrev IsRefusal : String → Type 0
  IsRefusal code = (code ≡ "invalid_argument") ⊎ (code ≡ "unsupported_audio_format")

  abbrev Checked : Fmt → ℕ → ℕ → AudioParseResult → Type 0
  Checked fmt start size (AudioParseResult.failure code message) = IsRefusal code
  Checked fmt start size (AudioParseResult.audio samples) =
      IsPcm16 fmt × SamplesAt start size samples

  -- What a parse of a body gives.
  abbrev pub Parsed : AudioParseResult → Type 0
  Parsed (AudioParseResult.failure code message) = IsRefusal code
  Parsed (AudioParseResult.audio samples) =
      (headers : List ℕ) × (fmt : ℕ) × (data_header : ℕ) × Trail body (read_u32le body 4 + 8)
        headers (read_u32le body 4 + 8)
      × (first_tagged (is_fmt_chunk body) headers ≡ some fmt)
      × (first_tagged (is_data_chunk body) headers ≡ some data_header)
      × IsPcm16 (read_fmt body (fmt + 8))
      × SamplesAt (data_header + 8) (read_u32le body (data_header + 4)) samples

  pcm16 :
      (fmt : Fmt)
      → not (fmt.audio_format == 1) ≡ false
      → (not (fmt.channels == 1)
          || not (fmt.sample_rate == 16000)
          || not (fmt.bits_per_sample == 16)
          || not (fmt.block_align == 2)
          || not (fmt.byte_rate == 32000))
        ≡ false
      → IsPcm16 fmt
  pcm16 fmt form shape = ground (arith, form, shape)

  check_fmt-Checked :
      (fmt : Fmt) (start size : ℕ)
      → start + size ≤ length body
      → Checked fmt start size (check_fmt body fmt (start, size))
  unfolding check_fmt make_audio
  check_fmt-Checked fmt start size fits =
      let bytes = take size (drop start body) in
      let n : length bytes ≡ size =
        omega (arith, length-take size (drop start body), length-drop start body, fits) in
      if-cases (Checked fmt start size) (not (fmt.audio_format == 1)) (λ _. inr refl)
        (λ form.
          if-cases (Checked fmt start size)
            (not (fmt.channels == 1)
              || not (fmt.sample_rate == 16000)
              || not (fmt.bits_per_sample == 16)
              || not (fmt.block_align == 2)
              || not (fmt.byte_rate == 32000))
            (λ _. inr refl)
            (λ shape.
              if-cases (Checked fmt start size) (length bytes == 0 || not (length bytes % 2 == 0))
                (λ _. inl refl)
                (λ f.
                  let even : length bytes % 2 ≡ 0 = ground (arith, f) in
                  (
                    pcm16 fmt form shape,
                    (fits, ground (arith, f, n), refl, length-samples_from bytes even ∙ n),
                  ))))

  check_chunks-Parsed :
      (c : Chunks)
      → read_u32le body 4 + 8 ≤ length body
      → Walking body (read_u32le body 4 + 8) (read_u32le body 4 + 8) c
      → Parsed (check_chunks body c.fmt c.data_chunk)
  unfolding check_chunks
  check_chunks-Parsed c le (h, headers, trail, (f, d)) =
      go (first_tagged (is_fmt_chunk body) headers) (first_tagged (is_data_chunk body) headers) refl
        refl f d
    where
      found :
          (fmt data_header : ℕ)
          → first_tagged (is_fmt_chunk body) headers ≡ some fmt
          → first_tagged (is_data_chunk body) headers ≡ some data_header
          → (r : AudioParseResult)
          → Checked
              (read_fmt body (fmt + 8))
              (data_header + 8)
              (read_u32le body (data_header + 4))
              r
          → Parsed r
      found fmt data_header e e' (AudioParseResult.failure code message) k = k
      found fmt data_header e e' (AudioParseResult.audio samples) (p, q) =
          (headers, fmt, data_header, trail, e, e', p, q)

      go :
          (o o' : Option ℕ)
          → first_tagged (is_fmt_chunk body) headers ≡ o
          → first_tagged (is_data_chunk body) headers ≡ o'
          → FmtNoted body o c.fmt
          → DataNoted body o' c.data_chunk
          → Parsed (check_chunks body c.fmt c.data_chunk)
      go none o' e e' x y = rw x (inl refl)
      go (some fmt) none e e' x y = rw (x, y) (inl refl)
      go (some fmt) (some data_header) e e' x y =
          let b = subst (InBounds (read_u32le body 4 + 8)) y h in
          rw (x, y)
            (found fmt data_header e e' _ (
              check_fmt-Checked (read_fmt body (fmt + 8)) (data_header + 8)
                (read_u32le body (data_header + 4)) (omega (arith, le, b))))

  conclude-Parsed :
      (r : Scan)
      → read_u32le body 4 + 8 ≤ length body
      → Scanned body (read_u32le body 4 + 8) r
      → Parsed (conclude body r)
  unfolding conclude
  conclude-Parsed (Scan.invalid why) le h = inl refl
  conclude-Parsed Scan.out_of_rounds le h = absurd h
  conclude-Parsed (Scan.scanned c) le h = check_chunks-Parsed c le h

  -- Parsing any body as a WAV file ends, with one of the two documented error codes or with audio.
  -- In that case the chunks follow one another, each with its padding byte, from 12 to the end that
  -- the RIFF header gives, the first "fmt " chunk says PCM16, mono, 16000 Hz, and the audio is the
  -- little-endian samples of the whole content of the first "data" chunk, which lies in the body and
  -- is not empty, one for each two bytes.
  pub parse_pcm16_wav-Parsed : Parsed (parse_pcm16_wav body)
  unfolding parse_pcm16_wav
  parse_pcm16_wav-Parsed =
      let riff_end = read_u32le body 4 + 8 in
      let nothing : Chunks = record { fmt = none; data_chunk = none } in
      if-cases Parsed
        (ltb (length body) 12 || not (tag_at body 0 82 73 70 70) || not (tag_at body 8 87 65 86 69))
        (λ _. inl refl)
        (λ _.
          if-cases Parsed (ltb riff_end 12 || ltb (length body) riff_end) (λ _. inl refl)
            (λ f. conclude-Parsed (scan body riff_end riff_end 12 nothing) (ground (arith, f)) (
              scan-Scanned body riff_end riff_end 12 nothing (omega arith) (ground (arith, f))
                (tt, [], refl, (refl, refl)))))
