-- ===== src/Mel/Frontend/Runs.antt =====
-- The frontend under any sequence of feeds and discards.

use voxtral_cpp.Prelude.{
  ℕ, zero, suc, ◌+◌, ◌*◌, ◌^◌, ◌<◌, ◌≡◌, refl, ap, sym, ◌∙◌, subst, Bool, true, false, Option, none,
  some, List, [], ◌∷◌, ◌++◌, append-nil, append_assoc, arith, ◌==◌, if-cases, length, replicate,
  length-append,
}
use voxtral_cpp.Mel.{◌>>=◌}
use voxtral_cpp.Mel.Frontend.{
  MelFrontend, PcmInput, null_pcm, samples, create, set_retain_history, accept, feed, feed_silence,
  discard_before,
}
use voxtral_cpp.Mel.Frontend.Session.{IsLive, accept-IsLive, create-IsLive}
use voxtral_cpp.Mel.Frontend.Discards.{
  discarded_base, discard_before-IsLive, discard_before-base, discard_before-retain,
}

pub data Action (S : Type 0) : Type 0 where
  push : PcmInput S → Action S
  push_silence : ℕ → Action S
  discard : ℕ → Action S

module _ {S F : Type 0} (kernel : List S → F) (silence : S) where
  -- The samples that a call brings.
  abbrev pub brought : Action S → List S
  brought (push (null_pcm n)) = []
  brought (push (samples xs)) = xs
  brought (push_silence n) = replicate n silence
  brought (discard f) = []

  abbrev pub brought_all : List (Action S) → List S
  brought_all [] = []
  brought_all (a ∷ as') = brought a ++ brought_all as'

  -- The base that the discards of these calls lead to, by their arguments alone.
  abbrev pub next_base : Bool → ℕ → ℕ → Action S → ℕ
  next_base retain received base (discard f) = discarded_base retain received base f
  next_base retain received base _ = base

  abbrev pub base_after : Bool → ℕ → ℕ → List (Action S) → ℕ
  base_after retain received base [] = base
  base_after retain received base (a ∷ as') =
      base_after retain (received + length (brought a)) (next_base retain received base a) as'

  abbrev state_of : Option (Bool × MelFrontend S F) → Option (MelFrontend S F)
  state_of none = none
  state_of (some (done, fe)) = some fe

  pub act : MelFrontend S F → Action S → Option (MelFrontend S F)
  unfolding feed feed_silence discard_before
  act fe (push input) = state_of (feed kernel input fe)
  act fe (push_silence n) = state_of (feed_silence kernel silence n fe)
  act fe (discard f) = some (discard_before f fe)

  unfoldable pub act_all : MelFrontend S F → List (Action S) → Option (MelFrontend S F)
  unfolding act
  act_all fe [] = some fe
  act_all fe (a ∷ as') = act fe a >>= λ fe1. act_all fe1 as'

  feed_running :
      (y : S) (ys : List S) (fe : MelFrontend S F)
      → fe.finalized ≡ false
      → feed kernel (samples (y ∷ ys)) fe ≡ accept kernel (y ∷ ys) fe
  unfolding feed
  feed_running y ys fe e =
      let more : (length (y ∷ ys) == 0) ≡ false = ground arith in rw e (rw more refl)

  feed_silence_running :
      (n : ℕ) (fe : MelFrontend S F)
      → fe.finalized ≡ false
      → feed_silence kernel silence (suc n) fe ≡ accept kernel (replicate (suc n) silence) fe
  unfolding feed_silence
  feed_silence_running n fe e =
      let more : (suc n == 0) ≡ false = ground arith in rw e (rw more refl)

  -- What one call does to a frontend that is being fed.
  abbrev Advances : List S → MelFrontend S F → Action S → Type 0
  Advances xs fe a =
      (fe' : MelFrontend S F) × (act fe a ≡ some fe')
      × IsLive kernel (xs ++ brought a) fe'
      × (fe'.mel_base_frame ≡ next_base fe.retain_history (length xs) fe.mel_base_frame a)
      × (fe'.retain_history ≡ fe.retain_history)

  idle-Advances :
      (xs : List S) (fe : MelFrontend S F) (a : Action S)
      → IsLive kernel xs fe
      → brought a ≡ []
      → next_base fe.retain_history (length xs) fe.mel_base_frame a ≡ fe.mel_base_frame
      → act fe a ≡ some fe
      → Advances xs fe a
  idle-Advances xs fe a h b n e = (
    fe,
    e,
    subst (λ l. IsLive kernel l fe) (sym (ap (λ l. xs ++ l) b ∙ append-nil xs)) h,
    sym n,
    refl,
  )

  idle_null : (n : ℕ) (fe : MelFrontend S F) → act fe (push (null_pcm n)) ≡ some fe
  unfolding act feed
  idle_null n fe = if-cases (λ o. state_of o ≡ some fe) fe.finalized (λ _. refl) (λ _. refl)

  idle_empty : (fe : MelFrontend S F) → act fe (push (samples [])) ≡ some fe
  unfolding act feed
  idle_empty fe = if-cases (λ o. state_of o ≡ some fe) fe.finalized (λ _. refl) (λ _. refl)

  idle_silence : (fe : MelFrontend S F) → act fe (push_silence zero) ≡ some fe
  unfolding act feed_silence
  idle_silence fe = if-cases (λ o. state_of o ≡ some fe) fe.finalized (λ _. refl) (λ _. refl)

  act-Advances :
      (xs : List S) (fe : MelFrontend S F) (a : Action S)
      → IsLive kernel xs fe
      → 2 * length (xs ++ brought a) < 2 ^ 31
      → Advances xs fe a
  unfolding act
  act-Advances xs fe (push (null_pcm n)) h small =
      idle-Advances xs fe (push (null_pcm n)) h refl refl (idle_null n fe)
  act-Advances xs fe (push (samples [])) h small =
      idle-Advances xs fe (push (samples [])) h refl refl (idle_empty fe)
  act-Advances xs fe (push (samples (y ∷ ys))) h small =
      let (fe', e, k, b, r) = accept-IsLive kernel xs (y ∷ ys) fe h small in
      (fe', ap state_of (feed_running y ys fe h.running ∙ e), k, b, r)
  act-Advances xs fe (push_silence zero) h small =
      idle-Advances xs fe (push_silence zero) h refl refl (idle_silence fe)
  act-Advances xs fe (push_silence (suc n)) h small =
      let (fe', e, k, b, r) = accept-IsLive kernel xs (replicate (suc n) silence) fe h small in
      (fe', ap state_of (feed_silence_running n fe h.running ∙ e), k, b, r)
  act-Advances xs fe (discard f) h small = (
    discard_before f fe,
    refl,
    subst (λ l. IsLive kernel l (discard_before f fe)) (sym (append-nil xs))
        (discard_before-IsLive kernel xs f fe h),
    discard_before-base kernel xs f fe h,
    discard_before-retain kernel f fe,
  )

  act_all-Advances :
      (as' : List (Action S)) (xs : List S) (fe : MelFrontend S F)
      → IsLive kernel xs fe
      → 2 * length (xs ++ brought_all as') < 2 ^ 31
      → (fe' : MelFrontend S F) × (act_all fe as' ≡ some fe')
        × IsLive kernel (xs ++ brought_all as') fe'
        × (fe'.mel_base_frame ≡ base_after fe.retain_history (length xs) fe.mel_base_frame as')
  unfolding act_all
  act_all-Advances [] xs fe h small =
      (fe, refl, subst (λ l. IsLive kernel l fe) (sym (append-nil xs)) h, refl)
  act_all-Advances (a ∷ as') xs fe h small =
      let e = append_assoc xs (brought a) (brought_all as') in
      let n = ap length e in
      let m = length-append (xs ++ brought a) (brought_all as') in
      let (fe1, p, h1, b1, r1) = act-Advances xs fe a h (omega (arith, n, m)) in
      let (fe', q, h', b') = act_all-Advances as' (xs ++ brought a) fe1 h1 (omega (arith, n)) in
      let r = fe.retain_history in
      (
        fe',
        ap (λ o. o >>= λ fe2. act_all fe2 as') p ∙ q,
        subst (λ l. IsLive kernel l fe') e h',
        b'
            ∙ ap (λ k. base_after k (length (xs ++ brought a)) fe1.mel_base_frame as') r1
            ∙ ap (λ k. base_after r k fe1.mel_base_frame as') (length-append xs (brought a))
            ∙ ap (λ b. base_after r (length xs + length (brought a)) b as') b1,
      )

  -- A new frontend, as a stream sets it up: with its history retained, or not.
  abbrev pub start : Bool → MelFrontend S F
  start retain = set_retain_history retain create

  start-IsLive :
      (retain : Bool)
      → IsLive kernel [] (start retain)
        × ((start retain).mel_base_frame ≡ 0)
        × ((start retain).retain_history ≡ retain)
  unfolding create set_retain_history
  start-IsLive true = (create-IsLive kernel, refl, refl)
  start-IsLive false =
      let h = create-IsLive kernel in
      let t = h.tracks in
      (
        record {
          tracks = record {
            received = refl;
            kept = refl;
            low = t.low;
            within = t.within;
            based = t.based;
            framed = t.framed;
            counted = (refl, refl);
          };
          settled = h.settled;
          caught_up = h.caught_up;
          running = refl;
          none_at_finish = refl;
          bounded = h.bounded;
        },
        refl,
        refl,
      )

  -- The calls go through, and leave a frontend that is up to date.
  abbrev pub KeepsUp : Bool → List (Action S) → Type 0
  KeepsUp retain as' =
      (fe : MelFrontend S F) × (act_all (start retain) as' ≡ some fe)
      × IsLive kernel (brought_all as') fe
      × (fe.mel_base_frame ≡ base_after retain 0 0 as')

  -- A new frontend that retains its history or not, whatever is fed to it and however its frames are
  -- discarded, never reads outside the samples that it keeps, which are fewer than a window; and it
  -- holds, from its base on, the frames whose samples have all come, each as the whole signal
  -- defines it. The base stays at 0 where the history is retained, and otherwise a discard moves it
  -- to the frame that it names, or to the next to come if that is less, and never back. All this
  -- while the signal has fewer than 2^30 samples, so that no 32-bit arithmetic overflows.
  pub act_all-IsLive :
      (retain : Bool) (as' : List (Action S))
      → 2 * length (brought_all as') < 2 ^ 31
      → KeepsUp retain as'
  act_all-IsLive retain as' h =
      let (live, b, r) = start-IsLive retain in
      let (fe, e, l, k) = act_all-Advances as' [] (start retain) live (omega (arith, h)) in
      (
        fe,
        e,
        l,
        k
            ∙ ap (λ x. base_after x 0 (start retain).mel_base_frame as') r
            ∙ ap (λ x. base_after retain 0 x as') b,
      )
