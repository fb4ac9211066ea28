-- ===== src/Server/PcmQueue.antt =====
-- server/bounded-queue.h: the bounded queue of PCM chunks between a connection and its worker. Each
-- operation holds the mutex, so the calls of both are a sequence; a `pop` that would wait is
-- `none`.
pub mod Fifo
use voxtral_cpp.Prelude.{
  ℕ, zero, suc, ◌+◌, ◌-◌, ◌≤◌, ◌≡◌, refl, sym, ap, ◌∙◌, min, ◌⊎◌, inl, inr, Bool, true, false, ◌||◌,
  Option, none, some, List, [], ◌∷◌, ◌++◌, append-nil, append_assoc, arith, if◌then◌else◌, if-cases,
  ◌==◌, length, take, drop, length-append, take-append-drop, length-take, length-drop,
}

abbrev pub worker_chunk_samples : ℕ
worker_chunk_samples = 1280

-- The `while` loop of `push_some` on as many rounds as there are samples.
pub chunks : ℕ → List ℕ → List (List ℕ)
chunks zero xs = []
chunks (suc f) [] = []
chunks (suc f) (x ∷ xs) =
    take worker_chunk_samples (x ∷ xs) ∷ chunks f (drop worker_chunk_samples (x ∷ xs))

pub record PcmQueue : Type 0 where
  pub capacity_samples : ℕ
  pub queue : List (List ℕ)
  pub queued_samples : ℕ
  pub finishing : Bool
  pub cancelled : Bool

pub data PopResult : Type 0 where
  pop_audio : List ℕ → PopResult
  pop_finish pop_cancel : PopResult

abbrev pub new_queue : ℕ → PcmQueue
new_queue capacity = record {
  capacity_samples = capacity;
  queue = [];
  queued_samples = 0;
  finishing = false;
  cancelled = false;
}

-- The number of samples that were taken; the rest stays with the caller.
pub push_some : PcmQueue → List ℕ → ℕ × PcmQueue
push_some q samples =
    let accepted = min (q.capacity_samples - q.queued_samples) (length samples) in
    if q.cancelled || q.finishing || length samples == 0
    then (0, q)
    else if accepted == 0
    then (0, q)
    else (
      accepted,
      record q {
        queue = q.queue ++ chunks accepted (take accepted samples);
        queued_samples = q.queued_samples + accepted;
      },
    )

pub pop : PcmQueue → Option PopResult × PcmQueue
pop q = if q.cancelled then (some PopResult.pop_cancel, q) else elim q.queue [
  | chunk ∷ rest ↦ (
    some (PopResult.pop_audio chunk),
    record q { queue = rest; queued_samples = q.queued_samples - length chunk },
  )
  | [] ↦ if q.finishing then (some PopResult.pop_finish, q) else (none, q)
]

pub finish : PcmQueue → PcmQueue
finish q = record q { finishing = true }

pub cancel : PcmQueue → PcmQueue
cancel q = record q { cancelled = true; queue = []; queued_samples = 0 }
