-- ===== src/Server/WavReader/Trails.antt =====
-- The walk over the chunks ends, stays inside the body, and takes the first chunks of its two kinds.

use voxtral_cpp.Prelude.{
  ℕ, zero, suc, ◌+◌, ◌-◌, ◌≤◌, ◌<◌, ◌≡◌, ◌%◌, subst, Bool, if◌then◌else◌, inl, inr, ◌&&◌, Option,
  none, some, List, [], ◌∷◌, arith, if-cases, ltb, ◌==◌, Bool-cases,
}
use voxtral_cpp.Server.WavReader.{
  Walk, stop, on, walk, Chunks, Scan, Fmt, is_none, is_fmt, read_fmt, tag_at, read_u32le,
  note_chunk, scan,
}

-- A data chunk that was noted lies before `riff_end`.
abbrev pub InBounds : ℕ → Option (ℕ × ℕ) → Type 0
InBounds riff_end none = Unit {0}
InBounds riff_end (some (start, size)) = start + size ≤ riff_end

-- The first chunk of a kind.
abbrev pub first_tagged : (ℕ → Bool) → List ℕ → Option ℕ
first_tagged tagged [] = none
first_tagged tagged (header ∷ before) = elim (first_tagged tagged before) [
  | some found ↦ some found
  | none ↦ if tagged header then some header else none
]

module _ (body : List ℕ) where
  note_chunk-InBounds :
      (riff_end header size : ℕ) (c : Chunks)
      → header + 8 + size ≤ riff_end
      → InBounds riff_end c.data_chunk
      → InBounds riff_end (note_chunk body header size c).data_chunk
  unfolding note_chunk
  note_chunk-InBounds riff_end header size c fits h =
      let P : Chunks → Type 0 = λ x. InBounds riff_end x.data_chunk in
      if-cases P (is_fmt body header c) (λ _. h)
        (λ _.
          if-cases P (tag_at body header 100 97 116 97 && is_none c.data_chunk) (λ _. fits)
            (λ _. h))

  -- The chunks of the file, the last first: each begins where the one before it ends, with its
  -- padding byte, the first at 12, and the last ends at `last`.
  abbrev pub Trail : ℕ → List ℕ → ℕ → Type 0
  Trail riff_end [] last = last ≡ 12
  Trail riff_end (header ∷ before) last =
      let size = read_u32le body (header + 4) in
      Trail riff_end before header × (last ≡ header + 8 + size + size % 2) × (last ≤ riff_end)

  abbrev pub is_fmt_chunk : ℕ → Bool
  is_fmt_chunk header = tag_at body header 102 109 116 32

  abbrev pub is_data_chunk : ℕ → Bool
  is_data_chunk header = tag_at body header 100 97 116 97

  abbrev pub FmtNoted : Option ℕ → Option Fmt → Type 0
  FmtNoted none noted = noted ≡ none
  FmtNoted (some header) noted = noted ≡ some (read_fmt body (header + 8))

  abbrev pub DataNoted : Option ℕ → Option (ℕ × ℕ) → Type 0
  DataNoted none noted = noted ≡ none
  DataNoted (some header) noted = noted ≡ some (header + 8, read_u32le body (header + 4))

  -- What is noted is the first chunk of each kind.
  abbrev pub Noted : List ℕ → Chunks → Type 0
  Noted headers c =
      FmtNoted (first_tagged is_fmt_chunk headers) c.fmt
      × DataNoted (first_tagged is_data_chunk headers) c.data_chunk

  note_chunk-fmt :
      (before : List ℕ) (header : ℕ) (c : Chunks)
      → FmtNoted (first_tagged is_fmt_chunk before) c.fmt
      → FmtNoted
          (first_tagged is_fmt_chunk (header ∷ before))
          (note_chunk body header (read_u32le body (header + 4)) c).fmt
  unfolding note_chunk
  note_chunk-fmt before header c h = go (first_tagged is_fmt_chunk before) h
    where
      go :
          (o : Option ℕ)
          → FmtNoted o c.fmt
          → FmtNoted
              (elim o [
                | some found ↦ some found
                | none ↦ if is_fmt_chunk header then some header else none
              ])
              (note_chunk body header (read_u32le body (header + 4)) c).fmt
      go none e = ground (arith, e)
      go (some found) e = ground (arith, e)

  note_chunk-data :
      (before : List ℕ) (header : ℕ) (c : Chunks)
      → DataNoted (first_tagged is_data_chunk before) c.data_chunk
      → DataNoted
          (first_tagged is_data_chunk (header ∷ before))
          (note_chunk body header (read_u32le body (header + 4)) c).data_chunk
  unfolding note_chunk
  note_chunk-data before header c h = go (first_tagged is_data_chunk before) h
    where
      go :
          (o : Option ℕ)
          → DataNoted o c.data_chunk
          → DataNoted
              (elim o [
                | some found ↦ some found
                | none ↦ if is_data_chunk header then some header else none
              ])
              (note_chunk body header (read_u32le body (header + 4)) c).data_chunk
      go none e = ground (arith, e)
      go (some found) e = ground (arith, e)

  -- The state of the walk at an offset.
  abbrev pub Walking : ℕ → ℕ → Chunks → Type 0
  Walking riff_end offset c =
      InBounds riff_end c.data_chunk
      × (headers : List ℕ) × Trail riff_end headers offset
      × Noted headers c

  abbrev pub Scanned : ℕ → Scan → Type 0
  Scanned riff_end (Scan.scanned c) = Walking riff_end riff_end c
  Scanned riff_end (Scan.invalid why) = Unit {0}
  Scanned riff_end Scan.out_of_rounds = ⊥

  -- A round goes on inside the file, and forward.
  abbrev Walked : ℕ → ℕ → Walk → Type 0
  Walked riff_end offset (Walk.stop why) = Unit {0}
  Walked riff_end offset (Walk.on next c) =
      (offset < next) × (next ≤ riff_end) × Walking riff_end next c

  noted-Walking :
      (riff_end offset next : ℕ) (c : Chunks)
      → offset + 8 + read_u32le body (offset + 4) ≤ riff_end
      → next ≡ offset + 8 + read_u32le body (offset + 4) + read_u32le body (offset + 4) % 2
      → next ≤ riff_end
      → Walking riff_end offset c
      → Walking riff_end next (note_chunk body offset (read_u32le body (offset + 4)) c)
  noted-Walking riff_end offset next c fits e le (h, headers, t, (f, d)) = (
    note_chunk-InBounds riff_end offset (read_u32le body (offset + 4)) c fits h,
    offset ∷ headers,
    (t, e, le),
    (note_chunk-fmt headers offset c f, note_chunk-data headers offset c d),
  )

  walk-Walked :
      (riff_end offset : ℕ) (c : Chunks)
      → offset < riff_end
      → Walking riff_end offset c
      → Walked riff_end offset (walk body riff_end offset c)
  unfolding walk
  walk-Walked riff_end offset c a h =
      let size = read_u32le body (offset + 4) in
      let next = offset + 8 + size in
      let P = Walked riff_end offset in
      if-cases P (ltb (riff_end - offset) 8) (λ _. tt)
        (λ b.
          if-cases P (ltb (riff_end - (offset + 8)) size) (λ _. tt)
            (λ d.
              let fits : next ≤ riff_end = ground (arith, a, b, d) in
              if-cases P (is_fmt body offset c && ltb size 16) (λ _. tt)
                (λ _.
                  if-cases P (size % 2 == 0)
                    (λ even.
                      let e : next ≡ next + size % 2 = ground (arith, even) in
                      (omega arith, fits, noted-Walking riff_end offset next c fits e fits h))
                    (λ odd.
                      if-cases P (next == riff_end) (λ _. tt)
                        (λ more.
                          let le : next + 1 ≤ riff_end = ground (arith, more, fits) in
                          let e : next + 1 ≡ next + size % 2 = ground (arith, odd) in
                          (
                            omega arith,
                            le,
                            noted-Walking riff_end offset (next + 1) c fits e le h,
                          ))))))

  -- With as many rounds as there are bytes before `riff_end` the walk ends, at `riff_end`.
  pub scan-Scanned :
      (f riff_end offset : ℕ) (c : Chunks)
      → riff_end ≤ offset + f
      → offset ≤ riff_end
      → Walking riff_end offset c
      → Scanned riff_end (scan body f riff_end offset c)
  unfolding scan
  scan-Scanned zero riff_end offset c enough le h = elim (Bool-cases (ltb offset riff_end)) [
    | inl t ↦ absurd (ground (arith, t, enough))
    | inr e ↦
        let z : offset ≡ riff_end = omega (arith, enough, le) in
        rw (e, scan) (subst (λ k. Walking riff_end k c) z h)
  ]
  scan-Scanned (suc f) riff_end offset c enough le h = elim (Bool-cases (ltb offset riff_end)) [
    | inr e ↦
        let z : offset ≡ riff_end = ground (arith, e, le) in
        rw (e, scan) (subst (λ k. Walking riff_end k c) z h)
    | inl e ↦
        rw (e, scan)
          (go (walk body riff_end offset c) (walk-Walked riff_end offset c (ground (arith, e)) h)
            (λ next c1 n le1 h1. scan-Scanned f riff_end next c1 (omega (arith, n, enough)) le1 h1))
  ]
    where
      go :
          (w : Walk)
          → Walked riff_end offset w
          → ((next : ℕ) (c1 : Chunks)
              → offset < next
              → next ≤ riff_end
              → Walking riff_end next c1
              → Scanned riff_end (scan body f riff_end next c1))
          → Scanned riff_end
              (elim w [ stop why ↦ Scan.invalid why | on next c1 ↦ scan body f riff_end next c1 ])
      go (Walk.stop why) k ih = tt
      go (Walk.on next c1) (a, b, k) ih = ih next c1 a b k
