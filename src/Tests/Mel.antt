-- ===== src/Tests/Mel.antt =====
-- The theorems on the Mel frontend at concrete inputs: a kernel that counts the samples of a window.
use mathlib.Core.Option.{some-injective}
use voxtral_cpp.Prelude.{
  ℕ, ◌≡◌, ◌∙◌, refl, sym, subst, false, some, [], ◌∷◌, List, arith, length, replicate,
}
use voxtral_cpp.Prelude.Int.{negsuc}
use voxtral_cpp.Mel.Reflect.{ReflectsTo, wave, reflect_index-wave}
use voxtral_cpp.Mel.Frontend.{MelFrontend, samples, create, set_retain_history}
use voxtral_cpp.Mel.Frontend.Session.{IsLive}
use voxtral_cpp.Mel.Frontend.Runs.{
  Action, brought_all, push, push_silence, discard, act_all, start, base_after, KeepsUp,
  act_all-IsLive,
}
use voxtral_cpp.Mel.Frontend.Batch.{EndsAsBatch, finish-compute_batch, Serves, frame_data-Serves}
use voxtral_cpp.Mel.Frontend.Assemble.{Assembles, assemble-compute_batch}

abbrev counts : List ℕ → ℕ
counts window = length window

abbrev calls : List (Action ℕ)
calls = push (samples (1 ∷ 2 ∷ 3 ∷ [])) ∷ push_silence 1000 ∷ discard 2 ∷ push_silence 5 ∷ []

reflect_index-wave_example : ReflectsTo (negsuc 24) 10 (wave 10 25)
reflect_index-wave_example =
    reflect_index-wave (negsuc 24) 10 (omega arith) (omega arith) (omega arith)

act_all-IsLive_example : KeepsUp counts 0 false calls
act_all-IsLive_example = act_all-IsLive counts 0 false calls (omega arith)

-- The discard drops two frames.
dropped_test : base_after counts 0 false 0 0 calls ≡ 2
dropped_test = refl

finish-compute_batch_example : EndsAsBatch counts 0 false calls
finish-compute_batch_example = finish-compute_batch counts 0 false calls (omega arith)

-- A frontend that got 400 samples of silence, which make two frames.
abbrev silent : List (Action ℕ)
silent = push_silence 400 ∷ []

abbrev fed : MelFrontend ℕ ℕ
fed = record {
  pcm = replicate 280 0;
  pcm_base = 120;
  total_received = 400;
  next_frame = 2;
  frames_during_feed = 2;
  frames_at_finish = 0;
  dft_frames_computed = 2;
  pcm_peak_retained = 280;
  finalized = false;
  mel_frames = 400 ∷ 400 ∷ [];
  mel_base_frame = 0;
  retain_history = false;
}

fed_test : act_all counts 0 (start counts 0 false) silent ≡ some fed
unfolding act_all create set_retain_history
fed_test = refl

fed-IsLive : IsLive counts (brought_all counts 0 silent) fed
fed-IsLive =
    let (fe, e, live, _) = act_all-IsLive counts 0 false silent (omega arith) in
    subst (IsLive counts (brought_all counts 0 silent)) (some-injective _ _ (sym e ∙ fed_test)) live

frame_data-Serves_example : Serves counts (brought_all counts 0 silent) (7 ∷ []) fed 1
frame_data-Serves_example =
    frame_data-Serves counts (brought_all counts 0 silent) (7 ∷ []) fed 1 fed-IsLive (omega arith)
      (omega arith)

assemble-compute_batch_example : Assembles counts 0 silent fed
assemble-compute_batch_example =
    assemble-compute_batch counts 0 false silent fed (omega arith) fed_test refl
