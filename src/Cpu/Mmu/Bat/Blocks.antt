-- ===== src/Cpu/Mmu/Bat/Blocks.antt =====
-- Block address translation (cpu/ppc/ppcmmu.cpp) as the architecture describes it: by the bits of the
-- two registers of a block.
use chungusppc.Common.{
  ℕ, ◌-◌, ◌^◌, ◌<◌, ◌==◌, ltb, ◌||◌, true, if◌then◌else◌, ◌≡◌, ap, arith, ◌↔◌, bit, bit_and, bit_or,
  not32, ◌<<<◌, ==_iff,
}
use chungusppc.Common.Bits.{bit-bit_and, bit-bit_or, bit-lt}
use chungusppc.Common.Bits.Shifts.{bit-shl, bit-mask, bit-complement}
use chungusppc.Common.Bits.Bounds.{bit_and-lt_right, bit_or-lt, bit_ext}
use chungusppc.Cpu.Mmu.Bat.{block_mask}

-- The mask of a block is clear in the 17 low bits, and where the length has a bit.
pub block_mask-bit :
    (length i : ℕ)
    → length < 2 ^ 11
    → i < 32
    → bit (block_mask length) i ≡ (if ltb i 17 || bit length (i - 17) == 1 then 0 else 1)
block_mask-bit length i h g =
    let low = bit_or (length <<< 17) 0x1_ffff in
    let small = bit_or-lt 32 (length <<< 17) 0x1_ffff (omega arith) (omega arith) in
    ground (
      arith,
      bit-complement 32 low i small g,
      bit-bit_or i (length <<< 17) 0x1_ffff,
      bit-shl length 17 i,
      bit-mask 17 i,
      bit-lt length (i - 17),
    )

module _ (m : ℕ) (m_lt : m < 2 ^ 32) where
  -- Two words agree under the mask exactly when their bits do.
  pub mask_iff :
      (a b : ℕ)
      → ((bit_and a m == bit_and b m) ≡ true) ↔ ((i : ℕ) → i < 32 → bit m i ≡ 1 → bit a i ≡ bit b i)
  mask_iff a b = (
    λ same i h one.
        let e = ap (λ n. bit n i) ((==_iff _ _).0 same) in
        ground (arith, e, bit-bit_and i a m, bit-bit_and i b m, bit-lt a i, bit-lt b i),
    λ agree. (==_iff _ _).1 (
        bit_ext 32 _ _ (bit_and-lt_right 32 a m m_lt) (bit_and-lt_right 32 b m m_lt) λ i h. ground (
          arith,
          agree i h,
          bit-bit_and i a m,
          bit-bit_and i b m,
          bit-lt m i,
          bit-lt a i,
          bit-lt b i,
        )),
  )

  pub block_bit :
      (l la i : ℕ)
      → i < 32
      → bit (bit_or (bit_and l m) (bit_and la (not32 m))) i
        ≡ (if bit m i == 1 then bit l i else bit la i)
  block_bit l la i h = ground (
    arith,
    bit-bit_or i (bit_and l m) (bit_and la (not32 m)),
    bit-bit_and i l m,
    bit-bit_and i la (not32 m),
    bit-complement 32 m i m_lt h,
    bit-lt m i,
    bit-lt l i,
    bit-lt la i,
  )
