-- ===== src/Cpu/Clock/Written.antt =====
-- Writing a half of the time base and reading it back.
use chungusppc.Common.{
  ℕ, ◌+◌, ◌-◌, ◌*◌, ◌/◌, ◌%◌, ◌^◌, ◌==◌, ◌≡◌, ◌<◌, arith, u64, if◌then◌else◌, bit_and, bit_or, refl,
  ap, ◌∙◌,
}
use native.Mathlib.Nat.{zero-div}
use chungusppc.Common.Bits.Halves.{bit_or-join, bit_or-join_right, bit_and-high}
use chungusppc.Common.Bits.Merge.{bit_and-mask}
use chungusppc.Core.Product.{u32xu64_whole}
use chungusppc.Cpu.Clock.{Clock, ticks, sub64, calc_tbr_value, update_timebase}

none_lem :
    (s hi lo : ℕ)
    → hi ≡ 0
    → lo ≡ 0
    → (if s == 0 then hi else u64 (u64 (hi * 2 ^ s) + lo / 2 ^ (32 - s))) ≡ 0
none_lem s hi lo h g = rw (h, g) (ground (arith, zero-div (2 ^ (32 - s))))

ticks-zero : (c : Clock) → ticks c 0 ≡ 0
unfolding ticks u32xu64_whole
ticks-zero c =
    let p = u32xu64_whole (c.tbr_freq_ghz) 0 in
    none_lem (c.tbr_freq_shift) (p.hi) (p.lo) (omega arith) (omega arith)

read_back :
    (later w : ℕ) (c : Clock)
    → later < 2 ^ 64
    → w < 2 ^ 64
    → c.tbr_wr_timestamp ≡ later
    → c.tbr_wr_value ≡ w
    → calc_tbr_value later c ≡ w
unfolding calc_tbr_value
read_back later w c h g e f =
    let elapsed : sub64 later (c.tbr_wr_timestamp) ≡ 0 = omega arith in
    let still : ticks c (sub64 later (c.tbr_wr_timestamp)) ≡ 0 =
      ap (ticks c) elapsed ∙ ticks-zero c in
    omega (arith, still)

high_mask_lem : (x : ℕ) → x < 2 ^ 64 → bit_and x 0xffff_ffff_0000_0000 ≡ x / 2 ^ 32 * 2 ^ 32
high_mask_lem x h = bit_and-high 32 0xffff_ffff x (bit_and-mask 32 (x / 2 ^ 32) ∙ omega arith)

-- Where the value `v` is a word and the time is a double word, a write of the low half of the time base is
-- read back with the high half of that time, and a write of the high half with the low half.
pub update_timebase_lem :
    (v now later : ℕ) (c : Clock)
    → v < 2 ^ 32
    → later < 2 ^ 64
    → (calc_tbr_value later (update_timebase 0xffff_ffff_0000_0000 v now later c)
        ≡ calc_tbr_value now c / 2 ^ 32 * 2 ^ 32 + v)
      × (calc_tbr_value later (update_timebase 0xffff_ffff (v * 2 ^ 32) now later c)
          ≡ v * 2 ^ 32 + calc_tbr_value now c % 2 ^ 32)
unfolding calc_tbr_value update_timebase
update_timebase_lem v now later c h g =
    let old = calc_tbr_value now c in
    let mask = high_mask_lem old (omega arith) in
    let join = bit_or-join 32 (old / 2 ^ 32) v h in
    let merged = ap (λ n. bit_or n v) mask ∙ join in
    let upper =
      ap (λ n. bit_or n (v * 2 ^ 32)) (bit_and-mask 32 old)
      ∙ bit_or-join_right 32 v (old % 2 ^ 32) (omega arith) in
    (
      read_back later _ _ g (omega arith) refl merged,
      read_back later _ _ g (omega arith) refl upper,
    )
