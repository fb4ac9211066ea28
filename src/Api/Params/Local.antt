-- ===== src/Api/Params/Local.antt =====
-- Only the bytes within the size that a client declares are read.
use voxtral_cpp.Prelude.{
  ℕ, zero, suc, ◌+◌, ◌*◌, ◌≤◌, ◌≡◌, refl, ap, sym, ◌∙◌, Bool, true, some, List, [], ◌∷◌, ◌++◌,
  arith, if◌then◌else◌, if-cases, length, take, drop, take-append-drop, length-take, length-drop,
  drop-append_left,
}
use voxtral_cpp.Api.Params.{
  read_uint, read_header, read_field, field_available, VersionedHeader, AudioConfig,
  audio_default_config, event_queue_capacity_default, normalize_audio_config, stream_params_from,
  normalize_stream_params,
}

read_uint-take : (w : ℕ) (xs : List ℕ) → read_uint w (take w xs) ≡ read_uint w xs
read_uint-take zero xs = refl
read_uint-take (suc w) [] = refl
read_uint-take (suc w) (x ∷ xs) = ap (λ n. x + 256 * n) (read_uint-take w xs)

take-append_left : (w : ℕ) (xs ys : List ℕ) → w ≤ length xs → take w (xs ++ ys) ≡ take w xs
take-append_left zero xs ys h = refl
take-append_left (suc w) [] ys h = absurd (omega arith)
take-append_left (suc w) (x ∷ xs) ys h = ap (λ l. x ∷ l) (take-append_left w xs ys (omega arith))

-- Bytes within the first `n` do not depend on what stands behind these.
module _ (mem junk : List ℕ) (n : ℕ) (fits : n ≤ length mem) where
  abbrev pub declared : List ℕ
  declared = take n mem ++ junk

  window_same : (off w : ℕ) → off + w ≤ n → take w (drop off declared) ≡ take w (drop off mem)
  window_same off w h =
      let a = take n mem in
      let l = length-take n mem in
      let m = length-drop off a in
      let whole = take-append-drop n mem in
      let side = λ (x : List ℕ).
        ap (take w) (drop-append_left off a x (omega (arith, l)))
        ∙ take-append_left w (drop off a) x (omega (arith, l, m)) in
      side junk ∙ sym (side (drop n mem)) ∙ ap (λ z. take w (drop off z)) whole

  read_uint_same :
      (off w : ℕ) → off + w ≤ n → read_uint w (drop off declared) ≡ read_uint w (drop off mem)
  read_uint_same off w h =
      sym (read_uint-take w (drop off declared))
      ∙ ap (read_uint w) (window_same off w h)
      ∙ read_uint-take w (drop off mem)

  read_field_same :
      (off w before : ℕ) → read_field declared n off w before ≡ read_field mem n off w before
  read_field_same off w before =
      if-cases
        (λ v. (if field_available n off w then read_uint w (drop off declared) else before) ≡ v)
        (field_available n off w) (λ t. rw t (read_uint_same off w (ground arith))) (λ f. rw f refl)

  read_header_same : 8 ≤ n → read_header (some declared) ≡ read_header (some mem)
  unfolding read_header
  read_header_same h =
      let a : read_uint 4 declared ≡ read_uint 4 mem = read_uint_same 0 4 (omega arith) in
      let b = read_uint_same 4 4 (omega arith) in rw (a, b) refl

  -- The audio structure is copied as a whole, if all of it is declared.
  audio_same :
      (before : Bool × AudioConfig)
      → (if field_available n 8 24
          then normalize_audio_config (take 24 (drop 8 declared))
          else before)
        ≡ (if field_available n 8 24 then normalize_audio_config (take 24 (drop 8 mem)) else before)
  audio_same before =
      if-cases
        (λ v.
          (if field_available n 8 24
            then normalize_audio_config (take 24 (drop 8 declared))
            else before)
          ≡ v)
        (field_available n 8 24)
        (λ t. rw t (ap normalize_audio_config (window_same 8 24 (ground arith)))) (λ f. rw f refl)

  stream_params_from_same : stream_params_from declared n ≡ stream_params_from mem n
  unfolding stream_params_from
  stream_params_from_same i =
      let (ok, audio) = audio_same (true, audio_default_config) i in
      (
        ok,
        record {
          audio = audio;
          event_queue_capacity = read_field_same 32 4 event_queue_capacity_default i;
          flags = read_field_same 36 4 0 i;
          reserved = read_field_same 40 8 0 i;
        },
      )

read_header-size :
    (mem : List ℕ) {h : VersionedHeader} → read_header (some mem) ≡ some h → 8 ≤ h.struct_size
unfolding read_header
read_header-size mem e = ground arith

normalize_stream_params_lem :
    (mem : List ℕ) {h : VersionedHeader}
    → read_header (some mem) ≡ some h
    → normalize_stream_params (some mem) ≡ stream_params_from mem h.struct_size
unfolding normalize_stream_params
normalize_stream_params_lem mem e = rw (e, normalize_stream_params) refl

-- For memory with an accepted header, that has at least the bytes that the header declares: whatever
-- stands behind the declared bytes, the normalized stream parameters are the same.
pub normalize_stream_params_local :
    (mem junk : List ℕ) (h : VersionedHeader)
    → read_header (some mem) ≡ some h
    → h.struct_size ≤ length mem
    → normalize_stream_params (some (take h.struct_size mem ++ junk))
      ≡ normalize_stream_params (some mem)
normalize_stream_params_local mem junk h e fits =
    let n = h.struct_size in
    normalize_stream_params_lem (declared mem junk n fits)
      (read_header_same mem junk n fits (read_header-size mem e) ∙ e)
    ∙ stream_params_from_same mem junk n fits
    ∙ sym (normalize_stream_params_lem mem e)
