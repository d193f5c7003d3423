-- ===== src/Cpu/Clock.antt =====
-- The time base and the real-time clock of the processor (cpu/ppc/ppcopcodes.cpp and the
-- variables of cpu/ppc/ppcexec.cpp). `get_virt_time_ns` is read by the callers here: each of its results
-- is an argument.
pub mod Elapsed
pub mod Written
mod Tests
use chungusppc.Common.{
  ℕ, ◌+◌, ◌-◌, ◌/◌, ◌%◌, ◌^◌, ◌==◌, leb, u32, u64, if◌then◌else◌, ◌>>>◌, ◌<<<◌, bit_and, bit_or,
}
use chungusppc.Core.Product.{u32xu64_whole}

-- The variables of the time base facility
pub record Clock : Type 0 where
  pub tbr_wr_timestamp : ℕ
  pub rtc_timestamp : ℕ
  pub tbr_wr_value : ℕ
  pub tbr_freq_ghz : ℕ
  pub tbr_freq_shift : ℕ
  pub rtc_lo : ℕ
  pub rtc_hi : ℕ

abbrev pub one_billion_ns : ℕ
one_billion_ns = 1_000_000_000

-- a - b on `uint64_t`
abbrev pub sub64 : ℕ → ℕ → ℕ
sub64 a b = (a + 2 ^ 64 - b) % 2 ^ 64

-- The lines that turn `diff` nanoseconds into `adj` ticks
unfoldable pub ticks : Clock → ℕ → ℕ
ticks c diff =
    let p = u32xu64_whole (c.tbr_freq_ghz) diff in
    if c.tbr_freq_shift == 0
    then p.hi
    else u64 (u64 (p.hi <<< c.tbr_freq_shift) + (p.lo >>> (32 - c.tbr_freq_shift)))

unfoldable pub calc_rtcl_value : ℕ → Clock → Clock
calc_rtcl_value new_ts c =
    let adj = ticks c (sub64 new_ts (c.rtc_timestamp)) in
    let rtc_l = u64 (adj + c.rtc_lo) in
    if leb one_billion_ns rtc_l
    then record c {
      rtc_hi = u32 (c.rtc_hi + u32 (rtc_l / one_billion_ns));
      rtc_lo = rtc_l % one_billion_ns;
      rtc_timestamp = new_ts;
    }
    else record c { rtc_lo = u32 rtc_l; rtc_timestamp = new_ts }

unfoldable pub calc_tbr_value : ℕ → Clock → ℕ
calc_tbr_value now c = u64 (c.tbr_wr_value + ticks c (sub64 now (c.tbr_wr_timestamp)))

unfoldable pub update_timebase : ℕ → ℕ → ℕ → ℕ → Clock → Clock
update_timebase mask new_val now later c = record c {
  tbr_wr_value = bit_or (bit_and (calc_tbr_value now c) mask) new_val;
  tbr_wr_timestamp = later;
}
