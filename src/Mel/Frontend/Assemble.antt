-- ===== src/Mel/Frontend/Assemble.antt =====
-- The Mel matrix that is handed out once the frontend has finished.
use mathlib.Core.Option.{some-injective}
use voxtral_cpp.Prelude.{
  ◌+◌, ◌-◌, ◌*◌, ◌%◌, ◌^◌, ◌<◌, Bool, ◌≡◌, ap, sym, ◌∙◌, some, List, arith, ◌==◌, if◌then◌else◌,
  length, drop, get_elem?, length-drop, get_elem?-drop,
}
use voxtral_cpp.Mel.{gather, compute_batch}
use voxtral_cpp.Mel.Gather.{gather_cong, gather_list}
use voxtral_cpp.Mel.Frontend.{MelFrontend, finish, assemble_raw, assemble_even}
use voxtral_cpp.Mel.Frontend.Runs.{Action, brought_all, act_all, start}
use voxtral_cpp.Mel.Frontend.Batch.{finish-compute_batch}

module _ {S F : Type 0} (fe : MelFrontend S F) (all : List F) (held : fe.mel_frames ≡ all)
    (base : fe.mel_base_frame ≡ 0) (next : fe.next_frame ≡ length all) where
  assemble_raw_lem : assemble_raw fe ≡ some all
  unfolding assemble_raw
  assemble_raw_lem = rw (base, held, next) (gather_list all)

  -- The first frame goes where their number is odd.
  assemble_even_lem : assemble_even fe ≡ some (drop (length all % 2) all)
  unfolding assemble_even
  assemble_even_lem =
      let d = length all % 2 in
      let e : (if length all % 2 == 0 then 0 else 1) ≡ d = ground arith in
      let l = length-drop d all in
      rw (base, held, next)
        (rw e (
          gather_cong (λ j. get_elem? all (j + d)) (λ j. get_elem? (drop d all) j) (length all - d)
            0
            (λ j lo hi.
              let z : j + d ≡ d + j = omega arith in
              ap (get_elem? all) z ∙ sym (get_elem?-drop all d j))
          ∙ ap (λ n. gather (λ j. get_elem? (drop d all) j) n 0) (sym l)
          ∙ gather_list (drop d all)))

module _ {S F : Type 0} (kernel : List S → F) (silence : S) where
  -- The finish goes through, and the matrices have the columns of the batch spectrogram.
  abbrev pub Assembles : List (Action S) → MelFrontend S F → Type 0
  Assembles as' fe =
      (fe' : MelFrontend S F) × (all : List F) × (finish kernel fe ≡ some fe')
      × (compute_batch kernel (brought_all kernel silence as') ≡ some all)
      × (assemble_raw fe' ≡ some all)
      × (assemble_even fe' ≡ some (drop (length all % 2) all))
      × (length (drop (length all % 2) all) % 2 ≡ 0)

  -- After feeds of fewer than 2^30 samples in all whose discards have dropped no frame, and the
  -- finish, the assembled matrix has the columns of the batch spectrogram, and the even one those of
  -- it without the first if their number is odd, so that their number is even.
  pub assemble-compute_batch :
      (retain : Bool) (as' : List (Action S)) (fe : MelFrontend S F)
      → 2 * length (brought_all kernel silence as') < 2 ^ 31
      → act_all kernel silence (start kernel silence retain) as' ≡ some fe
      → fe.mel_base_frame ≡ 0
      → Assembles as' fe
  assemble-compute_batch retain as' fe h e b =
      let (fe0, fe', all, e0, p, (c, next, held, base, _, _, _, _), _) =
        finish-compute_batch kernel silence retain as' h in
      let same = some-injective _ _ (sym e0 ∙ e) in
      let zero_base = base ∙ ap (λ (g : MelFrontend S F). g.mel_base_frame) same ∙ b in
      let frames = held ∙ ap (λ k. drop k all) zero_base in
      (
        fe',
        all,
        ap (finish kernel) (sym same) ∙ p,
        c,
        assemble_raw_lem fe' all frames zero_base next,
        assemble_even_lem fe' all frames zero_base next,
        (let l = length-drop (length all % 2) all in omega (arith, l)),
      )
