-- ===== src/Cpu/Clock/Tests.antt =====
-- The clock of a processor whose time base counts nanoseconds, two seconds after it was set.
use chungusppc.Common.{ℕ, ◌+◌, ◌*◌, ◌/◌, ◌%◌, ◌^◌, ◌≡◌, refl, u64, arith}
use chungusppc.Core.Product.{u32xu64_whole}
use chungusppc.Cpu.Clock.{Clock, sub64, ticks, calc_rtcl_value, calc_tbr_value, update_timebase}
use chungusppc.Cpu.Clock.Elapsed.{IsClock, IsTicks, IsAdvanced, clocks_lem}
use chungusppc.Cpu.Clock.Written.{update_timebase_lem}

abbrev sample_clock : Clock
sample_clock = record {
  tbr_wr_timestamp = 1_000;
  rtc_timestamp = 1_000;
  tbr_wr_value = 0xffff_ffff_ffff_ffff;
  tbr_freq_ghz = 0x8000_0000;
  tbr_freq_shift = 1;
  rtc_lo = 999_999_999;
  rtc_hi = 4;
}

sample_clock-IsClock : IsClock sample_clock
sample_clock-IsClock = record {
  freq_lt = omega arith;
  shift_le = omega arith;
  rtc_hi_lt = omega arith;
}

abbrev present : ℕ
present = 2_000_001_000

-- The time base wraps around.
wrapped_base : calc_tbr_value present sample_clock ≡ 1_999_999_999
unfolding calc_tbr_value ticks u32xu64_whole
wrapped_base = refl

carried_seconds : (calc_rtcl_value present sample_clock).rtc_hi ≡ 6
unfolding calc_rtcl_value ticks u32xu64_whole
carried_seconds = refl

-- TBL is written while TBU is kept.
written_low :
    (update_timebase 0xffff_ffff_0000_0000 7 present present
      (record sample_clock { tbr_wr_value = 0x5_0000_0000 })).tbr_wr_value
    ≡ 0x5_0000_0007
unfolding update_timebase calc_tbr_value ticks u32xu64_whole
written_low = refl

clocks_lem_example :
    ((t : ℕ) × IsTicks sample_clock (sub64 present 1_000) t
      × calc_tbr_value present sample_clock ≡ u64 (0xffff_ffff_ffff_ffff + t))
    × ((t : ℕ) × IsTicks sample_clock (sub64 present 1_000) t
        × IsAdvanced present
            (u64 (t + 999_999_999))
            sample_clock
            (calc_rtcl_value present sample_clock))
clocks_lem_example = clocks_lem present sample_clock sample_clock-IsClock

update_timebase_lem_example :
    (calc_tbr_value present (update_timebase 0xffff_ffff_0000_0000 7 present present sample_clock)
      ≡ calc_tbr_value present sample_clock / 2 ^ 32 * 2 ^ 32 + 7)
    × (calc_tbr_value present
          (update_timebase 0xffff_ffff (7 * 2 ^ 32) present present sample_clock)
        ≡ 7 * 2 ^ 32 + calc_tbr_value present sample_clock % 2 ^ 32)
update_timebase_lem_example =
    update_timebase_lem 7 present present sample_clock (omega arith) (omega arith)
