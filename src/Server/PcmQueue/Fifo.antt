-- ===== src/Server/PcmQueue/Fifo.antt =====
-- The PCM queue delivers what it accepted, in order, and keeps within its capacity.
use voxtral_cpp.Prelude.{
  ℕ, zero, suc, ◌+◌, ◌-◌, ◌≤◌, ◌≡◌, refl, sym, ap, ◌∙◌, min, ◌⊎◌, inl, inr, true, ◌||◌, Option,
  none, some, List, [], ◌∷◌, ◌++◌, append-nil, append_assoc, arith, if◌then◌else◌, if-cases, ◌==◌,
  length, take, drop, length-append, take-append-drop, length-take, length-drop,
}
use voxtral_cpp.Server.PcmQueue.{
  PcmQueue, PopResult, worker_chunk_samples, chunks, push_some, pop, finish, cancel,
}

-- The samples in the queue, in order.
abbrev pub samples_of : List (List ℕ) → List ℕ
samples_of [] = []
samples_of (c ∷ cs) = c ++ samples_of cs

samples_of-append : (xs ys : List (List ℕ)) → samples_of (xs ++ ys) ≡ samples_of xs ++ samples_of ys
samples_of-append [] ys = refl
samples_of-append (x ∷ xs) ys =
    ap (λ zs. x ++ zs) (samples_of-append xs ys)
    ∙ sym (append_assoc x (samples_of xs) (samples_of ys))

-- Cutting samples in chunks loses none.
chunks-samples : (f : ℕ) (xs : List ℕ) → length xs ≤ f → samples_of (chunks f xs) ≡ xs
unfolding chunks
chunks-samples zero [] h = refl
chunks-samples zero (x ∷ xs) h = absurd (omega (arith, h))
chunks-samples (suc f) [] h = refl
chunks-samples (suc f) (x ∷ xs) h =
    let n = length-drop worker_chunk_samples (x ∷ xs) in
    ap (λ zs. take worker_chunk_samples (x ∷ xs) ++ zs)
      (chunks-samples f (drop worker_chunk_samples (x ∷ xs)) (omega (arith, n, h)))
    ∙ take-append-drop worker_chunk_samples (x ∷ xs)

pub record IsQueue (q : PcmQueue) : Type 0 where
  pub counted : q.queued_samples ≡ length (samples_of q.queue)
  pub bounded : q.queued_samples ≤ q.capacity_samples

-- What a push did: `r` is the number of accepted samples and the queue after it.
pub record PushedSome (q : PcmQueue) (samples : List ℕ) (r : ℕ × PcmQueue) : Type 0 where
  pub valid : IsQueue r.1
  pub order : samples_of r.1.queue ≡ samples_of q.queue ++ take r.0 samples
  pub within : r.0 ≤ length samples
  pub greedy :
      (q.cancelled || q.finishing ≡ true)
      ⊎ ((r.0 ≡ length samples) ⊎ (r.1.queued_samples ≡ q.capacity_samples))

module _ (q : PcmQueue) (samples : List ℕ) where
  abbrev room : ℕ
  room = min (q.capacity_samples - q.queued_samples) (length samples)

  pushed_samples :
      samples_of (q.queue ++ chunks room (take room samples))
      ≡ samples_of q.queue ++ take room samples
  pushed_samples =
      let n = length-take room samples in
      samples_of-append q.queue (chunks room (take room samples))
      ∙ ap (λ zs. samples_of q.queue ++ zs)
          (chunks-samples room (take room samples) (omega (arith, n)))

  push_some-PushedSome : IsQueue q → PushedSome q samples (push_some q samples)
  unfolding push_some
  push_some-PushedSome h =
      let c = h.counted in
      let b = h.bounded in
      let P = PushedSome q samples in
      let n = length-append (samples_of q.queue) (take room samples) in
      let t = length-take room samples in
      if-cases P (q.cancelled || q.finishing || length samples == 0)
        (λ e. record {
          valid = h;
          order = sym (append-nil (samples_of q.queue));
          within = omega arith;
          greedy = ground (arith, e);
        })
        (λ _.
          if-cases P (room == 0)
            (λ e. record {
              valid = h;
              order = sym (append-nil (samples_of q.queue));
              within = omega arith;
              greedy = ground (arith, e, b);
            })
            (λ _. record {
              valid = record { counted = ap (λ k. k + room) c ∙ sized; bounded = omega (arith, b) };
              order = pushed_samples;
              within = omega arith;
              greedy = inr (ground (arith, b));
            }))
    where
      sized :
          length (samples_of q.queue) + room
          ≡ length (samples_of (q.queue ++ chunks room (take room samples)))
      sized =
          let n = length-append (samples_of q.queue) (take room samples) in
          let t = length-take room samples in
          let e = ap length pushed_samples in omega (arith, n, t, e)

pub data Action : Type 0 where
  push : List ℕ → Action
  take_one end_input stop : Action

-- A queue with the samples that it accepted, and those that its worker got.
pub record Session : Type 0 where
  pub queue : PcmQueue
  pub accepted : List ℕ
  pub delivered : List ℕ

got : Option PopResult → List ℕ
got (some (PopResult.pop_audio chunk)) = chunk
got _ = []

pub act : Session → Action → Session
unfolding got
act s (Action.push samples) =
    let (n, q) = push_some s.queue samples in
    record s { queue = q; accepted = s.accepted ++ take n samples }
act s Action.take_one =
    let (r, q) = pop s.queue in record s { queue = q; delivered = s.delivered ++ got r }
act s Action.end_input = record s { queue = finish s.queue }
act s Action.stop = record s { queue = cancel s.queue }

abbrev pub act_all : Session → List Action → Session
act_all s [] = s
act_all s (a ∷ as') = act_all (act s a) as'

pub record IsFifo (s : Session) : Type 0 where
  pub valid : IsQueue s.queue
  pub order : (s.queue.cancelled ≡ true) ⊎ (s.accepted ≡ s.delivered ++ samples_of s.queue.queue)

push-IsFifo : (samples : List ℕ) (s : Session) → IsFifo s → IsFifo (act s (Action.push samples))
unfolding act push_some
push-IsFifo samples s h =
    let r = push_some-PushedSome s.queue samples h.valid in
    record { valid = r.valid; order = ordered }
  where
    cancelled_same : (push_some s.queue samples).1.cancelled ≡ s.queue.cancelled
    cancelled_same = ground arith

    ordered :
        ((act s (Action.push samples)).queue.cancelled ≡ true)
        ⊎ ((act s (Action.push samples)).accepted
            ≡ s.delivered ++ samples_of (act s (Action.push samples)).queue.queue)
    ordered = elim h.order [
      | inl c ↦ inl (cancelled_same ∙ c)
      | inr e ↦
          let r = push_some-PushedSome s.queue samples h.valid in
          let n = (push_some s.queue samples).0 in
          inr (
            ap (λ xs. xs ++ take n samples) e
            ∙ append_assoc s.delivered (samples_of s.queue.queue) (take n samples)
            ∙ ap (λ xs. s.delivered ++ xs) (sym r.order))
    ]

-- What a pop does to the queue.
abbrev Popped : PcmQueue → Option PopResult × PcmQueue → Type 0
Popped q (r, q') =
    IsQueue q'
    × (q'.cancelled ≡ q.cancelled)
    × ((q.cancelled ≡ true) ⊎ (samples_of q.queue ≡ got r ++ samples_of q'.queue))

pop-Popped : (q : PcmQueue) → IsQueue q → Popped q (pop q)
unfolding pop got
pop-Popped q h = if-cases (Popped q) q.cancelled (λ t. (h, refl, inl t)) (λ _. go q.queue refl)
  where
    go :
        (cs : List (List ℕ))
        → q.queue ≡ cs
        → Popped q (elim cs as (λ _. Option PopResult × PcmQueue) [
          | chunk ∷ rest ↦ (
            some (PopResult.pop_audio chunk),
            record q { queue = rest; queued_samples = q.queued_samples - length chunk },
          )
          | [] ↦ if q.finishing then (some PopResult.pop_finish, q) else (none, q)
        ])
    go [] e = if-cases (Popped q) q.finishing (λ _. (h, refl, inr refl)) (λ _. (h, refl, inr refl))
    go (chunk ∷ rest) e =
        let c =
          h.counted ∙ ap (λ x. length (samples_of x)) e ∙ length-append chunk (samples_of rest) in
        let b = h.bounded in
        (
          record { counted = omega (arith, c); bounded = omega (arith, b) },
          refl,
          inr (ap samples_of e),
        )

act-IsFifo : (a : Action) (s : Session) → IsFifo s → IsFifo (act s a)
unfolding act finish cancel
act-IsFifo (Action.push samples) s h = push-IsFifo samples s h
act-IsFifo Action.take_one s h =
    let r = pop-Popped s.queue h.valid in
    record {
      valid = r.0;
      order = elim h.order [
        | inl c ↦ inl (r.1 ∙ c)
        | inr e ↦ elim r.2 [
          | inl c ↦ inl (r.1 ∙ c)
          | inr o ↦ inr (
              e
              ∙ ap (λ xs. s.delivered ++ xs) o
              ∙ sym (
                  append_assoc s.delivered (got (pop s.queue).0)
                    (samples_of (pop s.queue).1.queue)))
        ]
      ];
    }
act-IsFifo Action.end_input s h = record {
  valid = record { counted = h.valid.counted; bounded = h.valid.bounded };
  order = h.order;
}
act-IsFifo Action.stop s h = record {
  valid = record { counted = refl; bounded = omega arith };
  order = inl refl;
}

-- From a session where this holds, such as a new one, whatever the connection and the worker do, in
-- any order, it goes on to hold: the queue counts its samples right and
-- keeps within its capacity; and until it is cancelled, the samples that it accepted are those
-- that the worker got, in order, and then those still queued.
pub act_all-IsFifo : (as' : List Action) (s : Session) → IsFifo s → IsFifo (act_all s as')
act_all-IsFifo [] s h = h
act_all-IsFifo (a ∷ as') s h = act_all-IsFifo as' (act s a) (act-IsFifo a s h)
