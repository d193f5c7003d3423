-- ===== src/Cpu/Clock/Elapsed.antt =====
-- What the clocks show after a time has elapsed.
use chungusppc.Common.{
  ℕ, zero, suc, ◌+◌, ◌-◌, ◌*◌, ◌/◌, ◌%◌, ◌^◌, ◌==◌, ◌≡◌, ◌≤◌, ◌<◌, arith, u32, u64, leb,
  if◌then◌else◌, Bool-cases, inl, inr, refl, ap, sym, ◌∙◌,
}
use chungusppc.Common.Bits.Shifts.{pow-add, two-pow-pos}
use mathlib.Core.Path.{subst}
use native.Mathlib.Nat.{mod-lt, div-add-mod'}
use chungusppc.Core.Product.{u32xu64_whole}
use chungusppc.Core.Product.Exact.{u32xu64_whole-IsParts}
use chungusppc.Cpu.Clock.{Clock, ticks, sub64, one_billion_ns, calc_rtcl_value, calc_tbr_value}

-- The frequency is a word and a shift of at most 32 bits, and the clock's seconds are a word.
pub record IsClock (c : Clock) : Type 0 where
  pub freq_lt : c.tbr_freq_ghz < 2 ^ 32
  pub shift_le : c.tbr_freq_shift ≤ 32
  pub rtc_hi_lt : c.rtc_hi < 2 ^ 32

-- `t` is the number of whole ticks in `diff` nanoseconds, at tbr_freq_ghz * 2 ^ (shift - 32) a
-- nanosecond.
abbrev pub IsTicks : Clock → ℕ → ℕ → Type 0
IsTicks c diff t =
    let scaled = c.tbr_freq_ghz * diff * 2 ^ c.tbr_freq_shift in
    (t * 2 ^ 32 ≤ scaled) × (scaled < (t + 1) * 2 ^ 32)

distribute_lem : (h m n q r w : ℕ) → (h * w + (q * n + r)) * m ≡ h * m * w + q * (m * n) + r * m
distribute_lem h m n q r w = grind arith

below_lem : (r m n : ℕ) → r < n → 0 < m → r * m < m * n
below_lem r m n h g = grind arith

positive_lem : (m n : ℕ) → m * n ≡ 2 ^ 32 → 0 < m
positive_lem zero n e = omega arith
positive_lem (suc m) n e = omega arith

-- Shifting the parts of a product is shifting the product.
scale_lem :
    (hi lo m n q r : ℕ)
    → m * n ≡ 2 ^ 32
    → q * n + r ≡ lo
    → r < n
    → let scaled = (hi * 2 ^ 32 + lo) * m in
      ((hi * m + q) * 2 ^ 32 ≤ scaled) × (scaled < (hi * m + q + 1) * 2 ^ 32)
scale_lem hi lo m n q r e f g =
    let whole = distribute_lem hi m n q r (2 ^ 32) in
    let under = below_lem r m n g (positive_lem m n e) in
    let quotient = ap (λ k. q * k) e in
    let low = ap (λ k. (hi * 2 ^ 32 + k) * m) f in (omega arith, omega arith)

shifted_lem :
    (s hi lo : ℕ)
    → hi < 2 ^ 64
    → lo < 2 ^ 32
    → (if s == 0 then hi else u64 (u64 (hi * 2 ^ s) + lo / 2 ^ (32 - s)))
      ≡ u64 (hi * 2 ^ s + lo / 2 ^ (32 - s))
shifted_lem zero hi lo h g = omega arith
shifted_lem (suc s) hi lo h g = ground arith

-- The parts of the product of the frequency and the time, shifted
pub ticks-IsTicks :
    (c : Clock) (diff : ℕ)
    → IsClock c
    → diff < 2 ^ 64
    → (t : ℕ) × IsTicks c diff t × ticks c diff ≡ u64 t
unfolding ticks
ticks-IsTicks c diff w h =
    let p = u32xu64_whole (c.tbr_freq_ghz) diff in
    let parts = u32xu64_whole-IsParts (c.tbr_freq_ghz) diff w.freq_lt h in
    let m = 2 ^ c.tbr_freq_shift in
    let n = 2 ^ (32 - c.tbr_freq_shift) in
    let pow : m * n ≡ 2 ^ 32 =
      sym (pow-add (c.tbr_freq_shift) (32 - c.tbr_freq_shift))
      ∙ ap (λ k. 2 ^ k) {y = 32} (ground (arith, w.shift_le)) in
    let scaled =
      scale_lem (p.hi) (p.lo) m n (p.lo / n) (p.lo % n) pow (div-add-mod' (p.lo) n)
        (mod-lt (p.lo) (two-pow-pos (32 - c.tbr_freq_shift))) in
    (
      p.hi * m + p.lo / n,
      subst
          (λ k.
            (((p.hi * m + p.lo / n) * 2 ^ 32 ≤ k * m)
              × (k * m < (p.hi * m + p.lo / n + 1) * 2 ^ 32)))
          parts.0 scaled,
      shifted_lem (c.tbr_freq_shift) (p.hi) (p.lo) parts.1 parts.2,
    )

-- `n` seconds are carried and `ns` nanoseconds stay, of `total`.
abbrev pub IsAdvanced : ℕ → ℕ → Clock → Clock → Type 0
IsAdvanced now total c c' =
    (c'.rtc_lo < one_billion_ns)
    × ((n : ℕ) × (n * one_billion_ns + c'.rtc_lo ≡ total) × (c'.rtc_hi ≡ u32 (c.rtc_hi + n)))
    × (c'.rtc_timestamp ≡ now)

rtc_lem :
    (now : ℕ) (c : Clock)
    → c.rtc_hi < 2 ^ 32
    → IsAdvanced now
        (u64 (ticks c (sub64 now (c.rtc_timestamp)) + c.rtc_lo))
        c
        (calc_rtcl_value now c)
unfolding calc_rtcl_value
rtc_lem now c h =
    let total = u64 (ticks c (sub64 now (c.rtc_timestamp)) + c.rtc_lo) in
    elim (Bool-cases (leb one_billion_ns total)) [
      | inl e ↦ simp e (omega arith, (total / one_billion_ns, omega arith, omega arith), refl)
      | inr e ↦ simp e (ground (arith, e), (0, ground (arith, e), omega (arith, h)), refl)
    ]

-- On a clock whose frequency is a word with a shift of at most 32 bits and whose seconds are a word, the time base shows the
-- value last written and the whole ticks since, modulo 2^64. The real-time clock advances by the whole
-- ticks since its last time as seconds, modulo 2^32, and less than a second of nanoseconds; its last
-- time becomes the present.
pub clocks_lem :
    (now : ℕ) (c : Clock)
    → IsClock c
    → ((t : ℕ) × IsTicks c (sub64 now (c.tbr_wr_timestamp)) t
        × calc_tbr_value now c ≡ u64 (c.tbr_wr_value + t))
      × ((t : ℕ) × IsTicks c (sub64 now (c.rtc_timestamp)) t
          × IsAdvanced now (u64 (t + c.rtc_lo)) c (calc_rtcl_value now c))
unfolding calc_tbr_value
clocks_lem now c w =
    let base = ticks-IsTicks c (sub64 now (c.tbr_wr_timestamp)) w (omega arith) in
    let real = ticks-IsTicks c (sub64 now (c.rtc_timestamp)) w (omega arith) in
    let sum : u64 (ticks c (sub64 now (c.rtc_timestamp)) + c.rtc_lo) ≡ u64 (real.0 + c.rtc_lo) =
      omega (arith, real.2) in
    (
      (base.0, base.1, omega (arith, base.2)),
      (
        real.0,
        real.1,
        subst (λ k. IsAdvanced now k c (calc_rtcl_value now c)) sum (rtc_lem now c w.rtc_hi_lt),
      ),
    )
