-- ===== src/Stream/Eligibility.antt =====
-- src/voxtral-stream-telemetry.cpp: the ring that records when the audio of each committed group
-- became available. A time is a value of any type, -1.0 is `none`, and so is the group -1.
pub mod Latest
pub mod Window
use voxtral_cpp.Prelude.{
  ℕ, zero, suc, ◌+◌, ◌%◌, Bool, true, false, not, ◌||◌, Option, none, some, List, [], ◌∷◌, map,
  if◌then◌else◌, ◌==◌, length, get_or, replicate,
}

abbrev pub set {ℓ} : {A : Type ℓ} → List A → ℕ → A → List A
set [] i a = []
set (x ∷ xs) zero a = a ∷ xs
set (x ∷ xs) (suc i) a = x ∷ set xs i a

pub record Eligibility (A : Type 0) : Type 0 where
  pub absolute_group : List (Option ℕ)
  pub arrival_ms : List A

abbrev pub holds_group : Option ℕ → ℕ → Bool
holds_group none absolute = false
holds_group (some g) absolute = g == absolute

module _ {A : Type 0} where
  -- The loop from index `i` on, with the rounds that are left.
  unfoldable pub note_loop : ℕ → ℕ → ℕ → ℕ → A → Eligibility A → Eligibility A
  note_loop zero i start capacity now e = e
  note_loop (suc rounds) i start capacity now e =
      let absolute = start + i in
      let slot = absolute % capacity in
      note_loop rounds (i + 1) start capacity now (record {
        absolute_group = set e.absolute_group slot (some absolute);
        arrival_ms = set e.arrival_ms slot now;
      })

  module _ (zero_ms : A) where
    unfoldable pub sized : ℕ → Eligibility A → Eligibility A
    sized capacity e = if length e.absolute_group == capacity then e else record {
      absolute_group = replicate capacity none;
      arrival_ms = replicate capacity zero_ms;
    }

    -- `now` is `current_audio_availability_ms`.
    unfoldable pub note_group_eligibility : ℕ → ℕ → ℕ → A → Eligibility A → Eligibility A
    unfolding note_loop sized
    note_group_eligibility start count capacity now e =
        if capacity == 0 || count == 0
        then e
        else note_loop count 0 start capacity now (sized capacity e)

    unfoldable pub group_eligibility_ms : Eligibility A → ℕ → Option A
    group_eligibility_ms e absolute =
        let slot = absolute % length e.absolute_group in
        if length e.absolute_group == 0
        then none
        else if holds_group (get_or e.absolute_group slot none) absolute
        then some (get_or e.arrival_ms slot zero_ms)
        else none
