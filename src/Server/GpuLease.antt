-- ===== src/Server/GpuLease.antt =====
-- server/gpu-lease.h and server/gpu-lease.cpp: the lease on the GPU. The cancellations that a
-- manager allocated are a list, and a pointer to one is its index. Each operation holds the mutex,
-- so the threads' calls are a sequence.
pub mod Exclusive
use voxtral_cpp.Prelude.{
  ℕ, zero, suc, Bool, true, false, not, Option, none, some, List, [], ◌∷◌, ◌++◌, if◌then◌else◌,
  length,
}

pub data GpuMode : Type 0 where
  free batch realtime shutting_down : GpuMode

pub data CancelReason : Type 0 where
  no_reason client disconnect shutdown capacity protocol : CancelReason

abbrev pub is_busy : GpuMode → Bool
is_busy GpuMode.batch = true
is_busy GpuMode.realtime = true
is_busy _ = false

abbrev pub is_free : GpuMode → Bool
is_free GpuMode.free = true
is_free _ = false

abbrev pub same_mode : GpuMode → GpuMode → Bool
same_mode GpuMode.free GpuMode.free = true
same_mode GpuMode.batch GpuMode.batch = true
same_mode GpuMode.realtime GpuMode.realtime = true
same_mode GpuMode.shutting_down GpuMode.shutting_down = true
same_mode _ _ = false

-- The first reason that is not `None` stays.
pub request : CancelReason → CancelReason → CancelReason
request CancelReason.no_reason why = why
request current why = current

-- `request` on the cancellation at an index.
pub request_at : List CancelReason → ℕ → CancelReason → List CancelReason
unfolding request
request_at [] i why = []
request_at (r ∷ rs) zero why = request r why ∷ rs
request_at (r ∷ rs) (suc i) why = r ∷ request_at rs i why

-- `GpuLeaseManager`, with the cancellations that it allocated
pub record Manager : Type 0 where
  pub mode : GpuMode
  pub active : Option ℕ
  pub reasons : List CancelReason

-- `GpuLease`; `held` says that its manager is not null.
pub record Lease : Type 0 where
  pub held : Bool
  pub mode : GpuMode
  pub cancellation : Option ℕ

abbrev pub no_lease : Lease
no_lease = record { held = false; mode = GpuMode.free; cancellation = none }

unfoldable pub try_acquire : Manager → GpuMode → Lease × Manager
try_acquire m mode =
    if not (is_busy mode) then (no_lease, m) else if not (is_free m.mode) then (no_lease, m) else (
      record { held = true; mode = mode; cancellation = some (length m.reasons) },
      record m {
        active = some (length m.reasons);
        reasons = m.reasons ++ CancelReason.no_reason ∷ [];
        mode = mode;
      },
    )

unfoldable pub begin_shutdown : Manager → Manager
begin_shutdown m = record m {
  reasons = elim m.active [
    | none ↦ m.reasons
    | some i ↦ request_at m.reasons i CancelReason.shutdown
  ];
  mode = GpuMode.shutting_down;
}

unfoldable pub release : Manager → GpuMode → Manager
release m mode = record m {
  mode = if same_mode m.mode mode then GpuMode.free else m.mode;
  active = none;
}

-- `GpuLease::reset`, also its destructor
unfoldable pub reset : Lease → Manager → Lease × Manager
unfolding release
reset l m = if l.held then (no_lease, release m l.mode) else (l, m)

-- The move constructor: the new lease, and what is left of the other.
unfoldable pub move : Lease → Lease × Lease
move other = (other, record other { held = false; mode = GpuMode.free; cancellation = none })
