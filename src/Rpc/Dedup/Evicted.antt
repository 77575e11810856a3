-- ===== src/Rpc/Dedup/Evicted.antt =====
-- Entries removed by requests that outlived them: crates/forge-index-rpc/src/dedup.rs.
use forge_index.Base.{ℕ, zero, suc, ◌≤◌, ◌≡◌, refl, ◌∙◌, none, some, arith}
use forge_index.Base.Maps.{Key}
use forge_index.Rpc.Dedup.{
  Channel, fetching, Shared, set_entry, start, expire, evict, answer, remove, System, set_phase,
  init, turn, tick, Reach, begin, later, dedup_timeout,
}
use forge_index.Rpc.Dedup.Single.{entry_here}

abbrev channel : {K : Type 0} → (ℕ → K) → ℕ → ℕ → Channel K
channel keys i n = record { key = keys i; id = n }

same_time : dedup_timeout ≤ dedup_timeout
same_time = omega arith

module _ {K R : Type 0} (key : Key K) (keys : ℕ → K) where
  abbrev idle : Shared K R
  idle = (init {K = K} {R = R}).shared

  abbrev Reached : System K R → Type 0
  Reached = Reach key keys (λ s. Unit)

  abbrev at_time : ℕ → System K R → System K R
  at_time n s = record s { shared = record s.shared { now = n } }

  ticks : (s : System K R) → Reached (at_time 0 s) → (n : ℕ) → Reached (at_time n s)
  ticks s reach zero = reach
  ticks s reach (suc n) = later (ticks s reach n) tick tt

  -- the first task has begun its request
  abbrev begun : System K R
  begun = record {
    shared = record idle {
      in_flight = set_entry key (keys 0) (some (channel keys 0 0, 0)) idle.in_flight;
      next = 1;
    };
    phase = set_phase 0 (fetching (channel keys 0 0) 0) (init {K = K} {R = R}).phase;
  }

  -- When three tasks ask for the same key, two requests for it can run that began at the same time, as
  -- late as the timeout after the first.
  pub overlap :
      keys 0 ≡ keys 1
      → keys 1 ≡ keys 2
      → R
      → (s : System K R) × (Reached s
          × ((s.shared.now ≡ dedup_timeout)
              × ((s.phase 1 ≡ fetching (channel keys 1 1) dedup_timeout)
                  × (s.phase 2 ≡ fetching (channel keys 2 2) dedup_timeout))))
  overlap first second r =
      let newer =
        set_entry key (keys 1) (some (channel keys 1 1, dedup_timeout))
          (set_entry key (keys 1) none begun.shared.in_flight) in
      let start₀ = later begin (turn 0 (start refl)) tt in
      let waited = ticks begun start₀ dedup_timeout in
      let expired =
        later waited
          (turn 1 (
            expire
              (entry_here key idle.in_flight (keys 0) (some (channel keys 0 0, 0)) (keys 1) first)
              same_time))
          tt in
      let evicted = later expired (turn 1 evict) tt in
      let again =
        later evicted
          (turn 1 (start (entry_here key begun.shared.in_flight (keys 1) none (keys 1) refl))) tt in
      let answered = later again (turn 0 (answer r)) tt in
      let removed = later answered (turn 0 remove) tt in
      let last =
        later removed
          (turn 2 (start (entry_here key newer (keys 0) none (keys 2) (first ∙ second)))) tt in
      (_, (last, (refl, (refl, refl))))
