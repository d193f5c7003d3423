-- ===== src/Core/Timer/Deadline.antt =====
-- The next deadline of a cyclic timer (`process_timers` of core/timermanager.cpp): the periods that
-- have been missed are skipped, and the phase is kept.
use chungusppc.Common.{
  ℕ, ◌+◌, ◌-◌, ◌*◌, ◌/◌, ◌^◌, ◌≡◌, ◌≤◌, ◌<◌, leb, if◌then◌else◌, Bool-cases, inl, inr, u64, arith,
}
use chungusppc.Core.Timer.{rearmed}

-- The periods from the deadline that has passed to the next.
unfoldable pub periods : ℕ → ℕ → ℕ → ℕ
periods time_now timeout_ns interval_ns =
    if leb (timeout_ns + interval_ns) time_now
    then (time_now - (timeout_ns + interval_ns)) / interval_ns + 2
    else 1

skip_bounds :
    (late interval : ℕ)
    → 0 < interval
    → (late / interval * interval ≤ late) × (late < late / interval * interval + interval)
skip_bounds late interval h = grind arith

periods_bounds :
    (time_now timeout_ns interval_ns : ℕ)
    → 0 < interval_ns
    → timeout_ns ≤ time_now
    → (time_now < timeout_ns + periods time_now timeout_ns interval_ns * interval_ns)
      × (timeout_ns + periods time_now timeout_ns interval_ns * interval_ns
          ≤ time_now + interval_ns)
unfolding periods
periods_bounds time_now timeout_ns interval_ns h e =
    elim (Bool-cases (leb (timeout_ns + interval_ns) time_now)) [
      | inl late ↦
          rw late (grind (arith, skip_bounds (time_now - (timeout_ns + interval_ns)) interval_ns h))
      | inr soon ↦ rw soon (ground arith)
    ]

no_wrap : (n : ℕ) → n < 2 ^ 64 → u64 n ≡ n
no_wrap n h = omega arith

rearmed-periods :
    (time_now timeout_ns interval_ns : ℕ)
    → 0 < interval_ns
    → timeout_ns ≤ time_now
    → time_now + interval_ns < 2 ^ 64
    → rearmed time_now timeout_ns interval_ns
      ≡ timeout_ns + periods time_now timeout_ns interval_ns * interval_ns
unfolding rearmed periods
rearmed-periods time_now timeout_ns interval_ns h e small =
    let p : u64 (timeout_ns + interval_ns) ≡ timeout_ns + interval_ns =
      no_wrap (timeout_ns + interval_ns) (omega arith) in
    elim (Bool-cases (leb (timeout_ns + interval_ns) time_now)) [
      | inl late ↦
          let q = (time_now - (timeout_ns + interval_ns)) / interval_ns in
          let bounds = skip_bounds (time_now - (timeout_ns + interval_ns)) interval_ns h in
          rw (p, late)
            (rw (no_wrap (timeout_ns + interval_ns + (q + 1) * interval_ns) (grind arith))
              (grind arith))
      | inr soon ↦ rw (p, soon) (omega arith)
    ]

-- The next deadline of a cyclic timer that has expired is later than the time, by one period at
-- most, and a whole number of periods after the last, with an interval of more than 0 and while the time and
-- a period are together below 2^64.
pub rearmed_bounds :
    (time_now timeout_ns interval_ns : ℕ)
    → 0 < interval_ns
    → timeout_ns ≤ time_now
    → time_now + interval_ns < 2 ^ 64
    → (rearmed time_now timeout_ns interval_ns
        ≡ timeout_ns + periods time_now timeout_ns interval_ns * interval_ns)
      × (time_now < rearmed time_now timeout_ns interval_ns)
      × (rearmed time_now timeout_ns interval_ns ≤ time_now + interval_ns)
rearmed_bounds time_now timeout_ns interval_ns h e small = omega (
  arith,
  rearmed-periods time_now timeout_ns interval_ns h e small,
  periods_bounds time_now timeout_ns interval_ns h e,
)
