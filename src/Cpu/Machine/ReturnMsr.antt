-- ===== src/Cpu/Machine/ReturnMsr.antt =====
-- The machine state register that `rfi` sets (cpu/ppc/ppcopcodes.cpp), bit by bit, and that it is the one from
-- before the exception.
use chungusppc.Common.{
  ℕ, ◌+◌, ◌%◌, ◌^◌, ◌<◌, ◌≡◌, ◌==◌, ◌&&◌, ◌||◌, not, all_below, all_below_sound, refl, sym, ◌∙◌, ap,
  max, Bool, Bool-cases, inl, inr, ==_iff, true, false, if◌then◌else◌, bit, bit_and, bit_or,
  bit_xor, not32, truth, arith,
}
use chungusppc.Common.Bits.{bit-lt, bit-bit_or, bit-bit_xor}
use chungusppc.Common.Bits.Shifts.{bit-pow}
use chungusppc.Common.Bits.Merge.{bit_clear}
use chungusppc.Cpu.State.{State}
use chungusppc.Cpu.Msr
use chungusppc.Cpu.Spr
use chungusppc.Cpu.Machine.EntryMsr.{truth-bit_and, kept-bit, plain_bit, entry_bit}
use chungusppc.Cpu.Machine.Handler.{ExceptType, is_tlb_miss}
use chungusppc.Cpu.Machine.Supervisor.{return_msr}

-- The bits that `rfi` takes from SRR1.
abbrev pub restored : Bool → ℕ
restored is_603 = if is_603 then 0xff73 else 0x87c0_ff73

abbrev pub return_bit : Bool → ℕ → ℕ → ℕ → ℕ
return_bit is_603 msr srr1 i =
    if is_603 && i == 17
    then 0
    else if bit (restored is_603) i == 1
    then bit srr1 i
    else if i == 18
    then 0
    else bit msr i

merged-bit :
    (mask msr srr1 i : ℕ)
    → bit_or mask (2 ^ 18) < 2 ^ 32
    → i < 32
    → bit (bit_or (bit_and msr (not32 (bit_or mask (2 ^ 18)))) (bit_and srr1 mask)) i
      ≡ (if bit mask i == 1 then bit srr1 i else if i == 18 then 0 else bit msr i)
merged-bit mask msr srr1 i small h = ground (
  arith,
  bit-bit_or i (bit_and msr (not32 (bit_or mask (2 ^ 18)))) (bit_and srr1 mask),
  bit_clear msr (bit_or mask (2 ^ 18)) i small h,
  bit-bit_or i mask (2 ^ 18),
  bit-pow 18 i,
  kept-bit srr1 mask i,
  bit-lt mask i,
)

abbrev return_of : Bool → ℕ → ℕ → ℕ
return_of is_603 msr srr1 =
    let replace = if is_603 then 0xff73 else 0x87c0_ff73 in
    let from_srr1 = bit_and srr1 (bit_and replace (not32 Msr.pow)) in
    let new = bit_or (bit_and msr (not32 (bit_or replace Msr.pow))) from_srr1 in
    if is_603 then bit_and new (not32 Msr.tgpr) else new

return_of-bit :
    (is_603 : Bool) (msr srr1 i : ℕ)
    → i < 32
    → bit (return_of is_603 msr srr1) i ≡ return_bit is_603 msr srr1 i
return_of-bit false msr srr1 i h = merged-bit 0x87c0_ff73 msr srr1 i (omega arith) h
return_of-bit true msr srr1 i h =
    let new = bit_or (bit_and msr (not32 (bit_or 0xff73 (2 ^ 18)))) (bit_and srr1 0xff73) in
    ground (
      arith,
      bit_clear new (2 ^ 17) i (omega arith) h,
      bit-pow 17 i,
      merged-bit 0xff73 msr srr1 i (omega arith) h,
    )

pub return_msr-bit :
    (s : State) (i : ℕ)
    → i < 32
    → bit (return_msr s) i ≡ return_bit s.is_603 s.msr (s.spr Spr.srr1) i
unfolding return_msr
return_msr-bit s i h = return_of-bit s.is_603 s.msr (s.spr Spr.srr1) i h

-- The test whether TGPR changes looks at one bit.
pub tgpr-changes :
    (old new : ℕ)
    → truth (bit_and (bit_xor old new) Msr.tgpr) ≡ ((bit old 17 + bit new 17) % 2 == 1)
tgpr-changes old new =
    truth-bit_and 17 (bit_xor old new) ∙ ap (λ b. b == 1) (bit-bit_xor 17 old new)

-- The bits that an exception clears and `rfi` does not bring back.
abbrev pub lost : Bool → ℕ
lost is_603 = if is_603 then 0x0006_008c else 0x87c4_008c

abbrev mask_test : Bool → ℕ → Bool
mask_test is_603 i =
    if bit (restored is_603) i == 1
    then bit 0xff73 i == 1 || bit (lost is_603) i == 1
    else not (i == 0) && (bit 0xfffb_1041 i == 1 || bit (lost is_603) i == 1)

mask_fact : (is_603 : Bool) (i : ℕ) → i < 32 → mask_test is_603 i ≡ true
unfolding all_below
mask_fact true i h = all_below_sound 32 (mask_test true) i refl h
mask_fact false i h = all_below_sound 32 (mask_test false) i refl h

lost_pow : (is_603 : Bool) (i : ℕ) → i ≡ 18 → bit (lost is_603) i ≡ 1
lost_pow true i e = rw e refl
lost_pow false i e = rw e refl

lost_tgpr : (i : ℕ) → i ≡ 17 → bit (lost true) i ≡ 1
lost_tgpr i e = rw e refl

-- One bit through the exception, x at its entry, and back: r, l, k and f are its bits in the masks, c that of the
-- cause and v that of SRR1.
one_bit :
    (i b r l k f c v x le : ℕ)
    → (if r == 1 then f == 1 || l == 1 else not (i == 0) && (k == 1 || l == 1)) ≡ true
    → x ≡ (if i == 0 then le else if k == 1 then b else 0)
    → v ≡ max (if f == 1 then b else 0) c
    → (l ≡ 1 → b ≡ 0)
    → (r ≡ 1 → c ≡ 0)
    → (i ≡ 18 → l ≡ 1)
    → (if r == 1 then v else if i == 18 then 0 else x) ≡ b
one_bit i b r l k f c v x le masks entered saved clear cause pow = ground arith

trip :
    (is_603 is_601 miss : Bool) (msr srr1_bits e i : ℕ)
    → i < 32
    → bit e i ≡ (if i == 0 then bit msr (if is_601 then 0 else 16) else plain_bit is_603 miss msr i)
    → (bit (lost is_603) i ≡ 1 → bit msr i ≡ 0)
    → (bit (restored is_603) i ≡ 1 → bit srr1_bits i ≡ 0)
    → return_bit is_603 e (bit_or (bit_and msr 0xff73) srr1_bits) i ≡ bit msr i
trip false is_601 miss msr srr1_bits e i h entered clear cause =
    one_bit i (bit msr i) (bit 0x87c0_ff73 i) (bit (lost false) i) (bit 0xfffb_1041 i)
      (bit 0xff73 i) (bit srr1_bits i) (bit (bit_or (bit_and msr 0xff73) srr1_bits) i) (bit e i)
      (bit msr (if is_601 then 0 else 16)) (mask_fact false i h) entered
      (bit-bit_or i (bit_and msr 0xff73) srr1_bits
        ∙ ap (λ t. max t (bit srr1_bits i)) (kept-bit msr 0xff73 i))
      clear cause (lost_pow false i)
trip true is_601 miss msr srr1_bits e i h entered clear cause = elim (Bool-cases (i == 17)) [
  | inl at ↦ rw at (sym (clear (lost_tgpr i ((==_iff i 17).0 at))))
  | inr other ↦ rw other (
      one_bit i (bit msr i) (bit 0xff73 i) (bit (lost true) i) (bit 0xfffb_1041 i) (bit 0xff73 i)
        (bit srr1_bits i) (bit (bit_or (bit_and msr 0xff73) srr1_bits) i) (bit e i)
        (bit msr (if is_601 then 0 else 16)) (mask_fact true i h) (rw other at entered)
        (bit-bit_or i (bit_and msr 0xff73) srr1_bits
          ∙ ap (λ t. max t (bit srr1_bits i)) (kept-bit msr 0xff73 i))
        clear cause (lost_pow true i))
]

-- After an exception from a state with the register `msr`, where bit i is none that is lost and no
-- bit of the cause, `rfi` restores bit i.
pub round_trip-bit :
    (ty : ExceptType) (s : State) (srr1_bits e i : ℕ)
    → i < 32
    → bit e i ≡ entry_bit ty s i
    → (bit (lost s.is_603) i ≡ 1 → bit s.msr i ≡ 0)
    → (bit (restored s.is_603) i ≡ 1 → bit srr1_bits i ≡ 0)
    → return_bit s.is_603 e (bit_or (bit_and s.msr 0xff73) srr1_bits) i ≡ bit s.msr i
round_trip-bit ty s srr1_bits e i h entered clear cause =
    trip s.is_603 s.is_601 (is_tlb_miss ty) s.msr srr1_bits e i h entered clear cause
