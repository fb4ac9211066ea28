-- ===== src/KvCache/Decoder.antt =====
-- src/voxtral.cpp: the plan of an append to the decoder's K/V ring, `voxtral_decoder_kv_plan`, and
-- its commit. Sizes and positions are not negative; the counters of moved bytes, which no code
-- changes, are left out.
use voxtral_cpp.Prelude.{
  ℕ, ◌+◌, ◌-◌, ◌/◌, ◌%◌, ◌≤◌, ◌<◌, min, ◌≡◌, ◌≢◌, refl, Bool, not, ◌||◌, Option, none, some, List,
  arith, if◌then◌else◌, ltb, ◌==◌, if-cases,
}
use voxtral_cpp.KvCache.Segments.{
  Segment, decoder_kv_segments, slots_of, ring_slots, decoder_kv_segments-slots, slots_apart,
}

-- `voxtral_decoder_kv_ring`
pub record KvRing : Type 0 where
  pub capacity : ℕ
  pub used : ℕ
  pub oldest : ℕ
  pub next : ℕ
  pub wraps : ℕ
  pub evictions : ℕ

-- `voxtral_decoder_kv_plan_t`
pub record KvPlan : Type 0 where
  pub absolute_start : ℕ
  pub n_new : ℕ
  pub write_seg : List Segment
  pub read_seg : List Segment
  pub used_after : ℕ
  pub oldest_after : ℕ
  pub next_after : ℕ
  pub evicted : ℕ
  pub wrapped : Bool

-- Which arguments are refused.
abbrev pub kv_refused : KvRing → ℕ → ℕ → Bool
kv_refused ring start n_new =
    ring.capacity == 0
    || ltb ring.capacity ring.used
    || not (ring.oldest + ring.used == ring.next)
    || not (start == ring.next)
    || n_new == 0
    || ltb ring.capacity n_new

unfoldable pub kv_plan : KvRing → ℕ → ℕ → KvPlan
kv_plan ring start n_new =
    let used_after = min ring.capacity (ring.used + n_new) in
    let next_after = start + n_new in
    let oldest_after = next_after - used_after in
    let previous_cycle = if start == 0 then 0 else (start - 1) / ring.capacity in
    let newest_cycle = (next_after - 1) / ring.capacity in
    record {
      absolute_start = start;
      n_new = n_new;
      write_seg = decoder_kv_segments start n_new ring.capacity;
      read_seg = decoder_kv_segments oldest_after used_after ring.capacity;
      used_after = used_after;
      oldest_after = oldest_after;
      next_after = next_after;
      evicted = ring.used + n_new - ring.capacity;
      wrapped = ltb previous_cycle newest_cycle;
    }

-- `none` where the source returns false.
unfoldable pub decoder_kv_plan : KvRing → ℕ → ℕ → Option KvPlan
unfolding kv_plan
decoder_kv_plan ring start n_new =
    if kv_refused ring start n_new then none else some (kv_plan ring start n_new)

unfoldable pub decoder_kv_commit_plan : KvRing → KvPlan → KvRing
decoder_kv_commit_plan ring plan = record ring {
  used = plan.used_after;
  oldest = plan.oldest_after;
  next = plan.next_after;
  evictions = ring.evictions + plan.evicted;
  wraps = if plan.wrapped then ring.wraps + 1 else ring.wraps;
}

-- The positions from `oldest` up to `next` are in the ring, and all before them were evicted.
pub record IsKvRing (ring : KvRing) : Type 0 where
  pub positive : 0 < ring.capacity
  pub room : ring.used ≤ ring.capacity
  pub span : ring.oldest + ring.used ≡ ring.next
  pub evicted : ring.evictions ≡ ring.oldest

-- What a plan promises for a ring and the number of positions to append.
pub record Planned (ring : KvRing) (n_new : ℕ) (plan : KvPlan) : Type 0 where
  pub committed : IsKvRing (decoder_kv_commit_plan ring plan)
  pub appended : plan.next_after ≡ ring.next + n_new
  pub retained : plan.used_after ≡ min ring.capacity (ring.used + n_new)
  pub writes : slots_of plan.write_seg ≡ ring_slots ring.next n_new ring.capacity
  pub reads : slots_of plan.read_seg ≡ ring_slots plan.oldest_after plan.used_after ring.capacity
  pub apart :
      (a b : ℕ)
      → plan.oldest_after ≤ a
      → a < b
      → b < plan.next_after
      → a % ring.capacity ≢ b % ring.capacity

module _ (ring : KvRing) (n_new : ℕ) (valid : IsKvRing ring) where
  kv_plan-Planned :
      0 < n_new → n_new ≤ ring.capacity → Planned ring n_new (kv_plan ring ring.next n_new)
  unfolding kv_plan decoder_kv_commit_plan
  kv_plan-Planned some_new fits =
      let v0 = valid.positive in
      let v1 = valid.room in
      let v2 = valid.span in
      let v3 = valid.evicted in
      let cap = ring.capacity in
      let used = min cap (ring.used + n_new) in
      record {
        committed = record {
          positive = v0;
          room = omega (arith, v0, v1, v2, v3);
          span = omega (arith, v0, v1, v2, v3);
          evicted = omega (arith, v0, v1, v2, v3);
        };
        appended = refl;
        retained = refl;
        writes = decoder_kv_segments-slots cap ring.next n_new v0 fits;
        reads = decoder_kv_segments-slots cap (ring.next + n_new - used) used v0 (omega arith);
        apart = λ a b lo lt hi. slots_apart cap a b v0 lt (omega (arith, v1, v2));
      }

  -- An append of 1 to `capacity` positions at the end of a well-formed ring is planned: the ring
  -- keeps the newest positions, as many as it holds; the write segments are the slots of the new
  -- positions and the read segments those of all kept positions, in order; no two kept positions
  -- share a slot; and the committed ring is well formed again, with all positions before the
  -- oldest counted as evicted.
  pub decoder_kv_plan-Planned :
      0 < n_new
      → n_new ≤ ring.capacity
      → (plan : KvPlan) × (decoder_kv_plan ring ring.next n_new ≡ some plan)
        × Planned ring n_new plan
  unfolding decoder_kv_plan
  decoder_kv_plan-Planned some_new fits =
      (kv_plan ring ring.next n_new, accepted, kv_plan-Planned some_new fits)
    where
      accepted : decoder_kv_plan ring ring.next n_new ≡ some (kv_plan ring ring.next n_new)
      accepted =
          let v0 = valid.positive in
          let v1 = valid.room in
          let v2 = valid.span in
          if-cases (λ (o : Option KvPlan). o ≡ some (kv_plan ring ring.next n_new))
            (kv_refused ring ring.next n_new)
            (λ t. absurd (ground (arith, t, v0, v1, v2, some_new, fits))) (λ _. refl)
