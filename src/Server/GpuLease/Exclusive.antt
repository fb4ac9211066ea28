-- ===== src/Server/GpuLease/Exclusive.antt =====
-- No two leases on the GPU are held at a time.
use voxtral_cpp.Prelude.{
  ℕ, zero, suc, ◌≤◌, ◌≡◌, refl, ◌⊎◌, inl, inr, true, false, not, List, [], ◌∷◌, arith,
  if◌then◌else◌, if-cases,
}
use voxtral_cpp.Server.GpuLease.{
  GpuMode, CancelReason, is_busy, is_free, same_mode, request_at, Manager, Lease, no_lease,
  try_acquire, begin_shutdown, release, reset,
}

-- The calls of all threads, in the order in which they take the mutex. A lease is dropped by its
-- index in the list of all leases that were given out.
pub data Action : Type 0 where
  acquire : GpuMode → Action
  drop : ℕ → Action
  shut_down : Action
  cancel : ℕ → CancelReason → Action

pub record System : Type 0 where
  pub manager : Manager
  pub leases : List Lease

abbrev reset_at : ℕ → List Lease → Manager → List Lease × Manager
reset_at i [] m = ([], m)
reset_at zero (l ∷ ls) m = let (l', m') = reset l m in (l' ∷ ls, m')
reset_at (suc i) (l ∷ ls) m = let (ls', m') = reset_at i ls m in (l ∷ ls', m')

pub step : System → Action → System
step s (Action.acquire mode) =
    let (l, m) = try_acquire s.manager mode in record { manager = m; leases = l ∷ s.leases }
step s (Action.drop i) =
    let (ls, m) = reset_at i s.leases s.manager in record { manager = m; leases = ls }
step s Action.shut_down = record s { manager = begin_shutdown s.manager }
step s (Action.cancel i why) = record s {
  manager = record (s.manager) { reasons = request_at s.manager.reasons i why };
}

abbrev pub run : System → List Action → System
run s [] = s
run s (a ∷ as') = run (step s a) as'

abbrev pub held : List Lease → ℕ
held [] = 0
held (l ∷ ls) = if l.held then suc (held ls) else held ls

-- A held lease is of the manager's mode, unless that is the shutdown.
abbrev Fits : GpuMode → Lease → Type 0
Fits mode l =
    (l.held ≡ false) ⊎ (is_busy l.mode ≡ true) × ((mode ≡ l.mode) ⊎ (mode ≡ GpuMode.shutting_down))

abbrev AllFit : GpuMode → List Lease → Type 0
AllFit mode [] = Unit {0}
AllFit mode (l ∷ ls) = Fits mode l × AllFit mode ls

-- How many leases are held in a mode.
abbrev pub Count : GpuMode → ℕ → Type 0
Count GpuMode.free n = n ≡ 0
Count GpuMode.batch n = n ≡ 1
Count GpuMode.realtime n = n ≡ 1
Count GpuMode.shutting_down n = n ≤ 1

pub record IsExclusive (s : System) : Type 0 where
  pub fit : AllFit s.manager.mode s.leases
  pub count : Count s.manager.mode (held s.leases)

none_held-AllFit : (mode : GpuMode) (ls : List Lease) → held ls ≡ 0 → AllFit mode ls
none_held-AllFit mode [] e = tt
none_held-AllFit mode (l ∷ ls) e =
    (inl (ground (arith, e)), none_held-AllFit mode ls (ground (arith, e)))

-- Dropping a lease that is not held changes nothing; dropping the one that is frees the GPU, unless
-- it is shutting down.
abbrev Dropped : GpuMode → List Lease → List Lease × Manager → Type 0
Dropped mode ls (ls', m') =
    (m'.mode ≡ mode) × (held ls' ≡ held ls) × AllFit mode ls'
    ⊎ (suc (held ls') ≡ held ls)
      × ((m'.mode ≡ GpuMode.free)
          ⊎ (m'.mode ≡ GpuMode.shutting_down) × (mode ≡ GpuMode.shutting_down))

released :
    (mode lease_mode : GpuMode)
    → is_busy lease_mode ≡ true
    → (mode ≡ lease_mode) ⊎ (mode ≡ GpuMode.shutting_down)
    → let after = if same_mode mode lease_mode then GpuMode.free else mode in
      (after ≡ GpuMode.free) ⊎ (after ≡ GpuMode.shutting_down) × (mode ≡ GpuMode.shutting_down)
released mode lease_mode b h = ground (arith, b, h)

reset_at-Dropped :
    (i : ℕ) (ls : List Lease) (m : Manager) → AllFit m.mode ls → Dropped m.mode ls (reset_at i ls m)
unfolding reset release
reset_at-Dropped i [] m h = inl (refl, refl, tt)
reset_at-Dropped zero (l ∷ ls) m h = ground (arith, released m.mode l.mode)
reset_at-Dropped (suc i) (l ∷ ls) m h = ground (arith, reset_at-Dropped i ls m h.1)

drop-IsExclusive : (i : ℕ) (s : System) → IsExclusive s → IsExclusive (step s (Action.drop i))
unfolding step
drop-IsExclusive i s h = elim (reset_at-Dropped i s.leases s.manager h.fit) [
  | inl d ↦ record { fit = rw d.0 d.2; count = rw (d.0, d.1) h.count }
  | inr d ↦ let n = left d.0 in record { fit = none_held-AllFit _ _ n; count = freed n d.1 }
]
  where
    left :
        suc (held (reset_at i s.leases s.manager).0) ≡ held s.leases
        → held (reset_at i s.leases s.manager).0 ≡ 0
    left e = ground (arith, h.count)

    freed :
        {mode : GpuMode} {n : ℕ}
        → n ≡ 0
        → (mode ≡ GpuMode.free)
          ⊎ (mode ≡ GpuMode.shutting_down) × (s.manager.mode ≡ GpuMode.shutting_down)
        → Count mode n
    freed {mode} {n} e (inl f) = rw f e
    freed {mode} {n} e (inr f) = rw f.0 (omega arith)

shut_down-AllFit :
    (mode : GpuMode) (ls : List Lease) → AllFit mode ls → AllFit GpuMode.shutting_down ls
shut_down-AllFit mode [] h = tt
shut_down-AllFit mode (l ∷ ls) h = (ground (arith, h.0), shut_down-AllFit mode ls h.1)

shut_down-IsExclusive : (s : System) → IsExclusive s → IsExclusive (step s Action.shut_down)
unfolding step begin_shutdown
shut_down-IsExclusive s h = record {
  fit = shut_down-AllFit s.manager.mode s.leases h.fit;
  count = below s.manager.mode h.count;
}
  where
    below : (mode : GpuMode) → Count mode (held s.leases) → held s.leases ≤ 1
    below mode c = ground arith

acquire-IsExclusive :
    (mode : GpuMode) (s : System) → IsExclusive s → IsExclusive (step s (Action.acquire mode))
unfolding step try_acquire
acquire-IsExclusive mode s h =
    if-cases P (not (is_busy mode)) (λ _. kept)
      (λ b.
        if-cases P (not (is_free s.manager.mode)) (λ _. kept)
          (λ f.
            let n : held s.leases ≡ 0 = ground (arith, f, h.count) in
            record {
              fit = (inr (ground (arith, b), inl refl), none_held-AllFit mode s.leases n);
              count = ground (arith, b, n);
            }))
  where
    P : Lease × Manager → Type 0
    P (l, m) = IsExclusive (record { manager = m; leases = l ∷ s.leases })

    kept : P (no_lease, s.manager)
    kept = record { fit = (inl refl, h.fit); count = h.count }

step-IsExclusive : (a : Action) (s : System) → IsExclusive s → IsExclusive (step s a)
unfolding step
step-IsExclusive (Action.acquire mode) s h = acquire-IsExclusive mode s h
step-IsExclusive (Action.drop i) s h = drop-IsExclusive i s h
step-IsExclusive Action.shut_down s h = shut_down-IsExclusive s h
step-IsExclusive (Action.cancel i why) s h = record { fit = h.fit; count = h.count }

-- From a state where this holds, however threads acquire and drop leases, shut down and request
-- cancellations, it goes on to hold: at most one of the leases given out is held; it is of the mode that the manager reports, unless the manager is
-- shutting down; and the manager reports a busy mode just while a lease is held and it does not
-- shut down.
pub run-IsExclusive : (as' : List Action) (s : System) → IsExclusive s → IsExclusive (run s as')
run-IsExclusive [] s h = h
run-IsExclusive (a ∷ as') s h = run-IsExclusive as' (step s a) (step-IsExclusive a s h)
