-- ===== src/Server/Outbound/Sizes.antt =====
-- The bytes of the queued messages, where one is replaced or taken out.
use voxtral_cpp.Prelude.{
  ℕ, suc, ◌+◌, ◌≤◌, ◌≡◌, ap, refl, Option, none, some, List, [], ◌∷◌, ◌++◌, arith, if◌then◌else◌,
  if-cases, length,
}
use voxtral_cpp.Server.Outbound.{OutboundMessage, is_partial, replace_partial, remove_partial}

abbrev pub total : List OutboundMessage → ℕ
total [] = 0
total (m ∷ ms) = length m.payload + total ms

pub total-append :
    (ms : List OutboundMessage) (m : OutboundMessage)
    → total (ms ++ m ∷ []) ≡ total ms + length m.payload
total-append [] m = omega arith
total-append (x ∷ ms) m = omega (arith, total-append ms m)

-- Replacing and removing account for the sizes.
abbrev pub Replaced : List OutboundMessage → ℕ → Option (ℕ × List OutboundMessage) → Type 0
Replaced ms size none = Unit {0}
Replaced ms size (some (n, ms')) =
    (total ms' + n ≡ total ms + size) × (length ms' ≡ length ms) × (n ≤ total ms)

pub replace_partial-Replaced :
    (ms : List OutboundMessage) (new : OutboundMessage)
    → Replaced ms (length new.payload) (replace_partial ms new)
unfolding replace_partial
replace_partial-Replaced [] new = tt
replace_partial-Replaced (m ∷ ms) new =
    go (replace_partial ms new) (replace_partial-Replaced ms new)
  where
    go :
        (o : Option (ℕ × List OutboundMessage))
        → Replaced ms (length new.payload) o
        → Replaced (m ∷ ms) (length new.payload) (elim o [
          | some (n, ms') ↦ some (n, m ∷ ms')
          | none ↦ if is_partial m.kind then some (length m.payload, new ∷ ms) else none
        ])
    go none h =
        if-cases (Replaced (m ∷ ms) (length new.payload)) (is_partial m.kind)
          (λ _. (omega arith, refl, omega arith)) (λ _. tt)
    go (some (n, ms')) h = (omega (arith, h), ap suc h.1, omega (arith, h))

abbrev pub Removed : List OutboundMessage → Option (ℕ × List OutboundMessage) → Type 0
Removed ms none = Unit {0}
Removed ms (some (n, ms')) = (total ms' + n ≡ total ms) × (suc (length ms') ≡ length ms)

pub remove_partial-Removed : (ms : List OutboundMessage) → Removed ms (remove_partial ms)
unfolding remove_partial
remove_partial-Removed [] = tt
remove_partial-Removed (m ∷ ms) = go (remove_partial ms) (remove_partial-Removed ms)
  where
    go :
        (o : Option (ℕ × List OutboundMessage))
        → Removed ms o
        → Removed (m ∷ ms) (elim o [
          | some (n, ms') ↦ some (n, m ∷ ms')
          | none ↦ if is_partial m.kind then some (length m.payload, ms) else none
        ])
    go none h = if-cases (Removed (m ∷ ms)) (is_partial m.kind) (λ _. (omega arith, refl)) (λ _. tt)
    go (some (n, ms')) h = (omega (arith, h), ap suc h.1)
